-- ===== src/Storage/Mongo/Laws.antt =====
-- A raw document that was stored is read back, and storing it again leaves one document.
use eventmind.Base.{
  ◌≡◌, refl, ap, ◌∙◌, ◌⊎◌, inl, inr, Text, text_eq, text_eq_refl, Option, Option-cases, none, some,
  ok, err, Time, if◌then◌else◌,
}
use eventmind.Events.{Event}
use eventmind.Storage.Mongo.{
  Payload, nested, raw_text, Document, Mongo, payload_of, document_of, save_event, get_event,
}

-- The documented behaviour of the two commands: one document for each identifier. Either may fail.
pub record IsLawful (M : Mongo) : Type 0 where
  pub documents : M.State → Text → Option (Document M.Json)
  pub upsert_lem :
      (s : M.State) (id : Text) (doc : Document M.Json)
      → ((e : Text) × ((M.upsert s id doc).0 ≡ some e))
        ⊎ (((M.upsert s id doc).0 ≡ none)
            × ((other : Text)
                → documents (M.upsert s id doc).1 other
                  ≡ (if text_eq other id then some doc else documents s other)))
  pub find_one_lem :
      (s : M.State) (id : Text)
      → ((e : Text) × (M.find_one s id ≡ err e)) ⊎ (M.find_one s id ≡ ok (documents s id))

module _ (M : Mongo) (L : IsLawful M) where
  -- What is stored of a payload: its value if it is JSON, and otherwise its bytes.
  abbrev pub IsKept : Text → Payload M.Json → Type 0
  IsKept payload p =
      ((j : M.Json) × (M.decode_any payload ≡ some j) × (p ≡ nested j))
      ⊎ ((M.decode_any payload ≡ none) × (p ≡ raw_text payload))

  payload_of-IsKept : (payload : Text) → IsKept payload (payload_of M payload)
  unfolding payload_of
  payload_of-IsKept payload = elim (Option-cases (M.decode_any payload)) [
    | inl bad ↦ inr (bad, rw (bad, payload_of) refl)
    | inr (j, good) ↦ inl (j, good, rw (good, payload_of) refl)
  ]

  -- If Mongo behaves as documented and takes the document of an event, reading the event by its id
  -- gives that document, or an error of the server; its payload is the JSON value of the event's
  -- payload, or the bytes where they are no JSON, and the documents of all other events stay.
  pub get_event-save_event :
      (s : M.State) (ev : Event) (now : Time)
      → (save_event M s ev now).0 ≡ none
      → let s' = (save_event M s ev now).1 in
        let doc = document_of M ev now in
        (((e : Text) × (get_event M s' ev.id ≡ err e)) ⊎ (get_event M s' ev.id ≡ ok (some doc)))
        × IsKept ev.payload doc.payload
        × ((other : Text)
            → L.documents s' other
              ≡ (if text_eq other ev.id then some doc else L.documents s other))
  unfolding save_event get_event document_of
  get_event-save_event s ev now saved = elim (L.upsert_lem s ev.id (document_of M ev now)) [
    | inl (e, bad) ↦ cc
    | inr (good, after) ↦ (
      elim (L.find_one_lem (save_event M s ev now).1 ev.id) [
        | inl (e, bad) ↦ inl (e, bad)
        | inr found ↦
            let there = rw (text_eq_refl ev.id) at (after ev.id) in inr (found ∙ ap ok there)
      ],
      payload_of-IsKept ev.payload,
      after,
    )
  ]
