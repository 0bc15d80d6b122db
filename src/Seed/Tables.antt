-- ===== src/Seed/Tables.antt =====
-- scripts/seed.go: the texts that the sample events are made of.
use eventmind.Base.{Text, bytes, List, [], ◌∷◌}

abbrev pub priorities : List Text
priorities = bytes "low" ∷ bytes "medium" ∷ bytes "high" ∷ bytes "critical" ∷ []

abbrev pub subjects : List Text
subjects =
    bytes "Can't log into my account"
    ∷ bytes "Charge on my card I didn't make"
    ∷ bytes "Order hasn't arrived after 2 weeks"
    ∷ bytes "App keeps crashing on iOS 17"
    ∷ bytes "Wrong item shipped"
    ∷ bytes "Need to change delivery address"
    ∷ bytes "Discount code not working at checkout"
    ∷ []

abbrev pub reasons : List Text
reasons =
    bytes "insufficient_funds"
    ∷ bytes "card_declined"
    ∷ bytes "expired_card"
    ∷ bytes "fraud_suspected"
    ∷ bytes "bank_unreachable"
    ∷ []

abbrev pub plans : List Text
plans = bytes "free" ∷ bytes "pro" ∷ bytes "enterprise" ∷ []

abbrev pub sources : List Text
sources =
    bytes "organic"
    ∷ bytes "referral"
    ∷ bytes "paid_search"
    ∷ bytes "social"
    ∷ bytes "email_campaign"
    ∷ []

abbrev pub names : List Text
names =
    bytes "alex"
    ∷ bytes "sam"
    ∷ bytes "jordan"
    ∷ bytes "taylor"
    ∷ bytes "morgan"
    ∷ bytes "casey"
    ∷ bytes "riley"
    ∷ bytes "quinn"
    ∷ []

abbrev pub domains : List Text
domains =
    bytes "gmail.com"
    ∷ bytes "yahoo.com"
    ∷ bytes "outlook.com"
    ∷ bytes "protonmail.com"
    ∷ bytes "hey.com"
    ∷ []

-- The name and the SKU of a product.
abbrev pub products : List (Text × Text)
products =
    (bytes "Wireless Headphones Pro", bytes "WHP-001")
    ∷ (bytes "USB-C Hub 7-in-1", bytes "HUB-007")
    ∷ (bytes "Mechanical Keyboard TKL", bytes "MKB-TKL")
    ∷ (bytes "27-inch Monitor Stand", bytes "MON-STD")
    ∷ (bytes "Laptop Cooling Pad", bytes "LCP-200")
    ∷ (bytes "Webcam 4K", bytes "WEB-4K1")
    ∷ []
