-- ===== src/Oauth.antt =====
-- packages/broker/src/oauth: which environment a token may reach.
pub mod EnvScope
