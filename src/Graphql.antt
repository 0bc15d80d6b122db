-- ===== src/Graphql.antt =====
-- api/graphql: the subscription broker and the resolvers.
pub mod Subscriptions
pub mod Resolvers
