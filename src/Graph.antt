-- ===== src/Graph.antt =====
-- graph/: the GraphQL resolvers and the broker of their subscriptions.
pub mod Broker
pub mod Model
pub mod Resolvers
