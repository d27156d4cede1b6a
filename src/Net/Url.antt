-- ===== src/Net/Url.antt =====
-- net/url: `url.URL`. The user info and the fragment are as String writes them.
use decision_gateway.Prelude.{Bool, Text}

pub record Url : Type 0 where
  pub scheme : Text
  pub opaque_part : Text
  pub user : Text
  pub host : Text
  pub path : Text
  pub raw_path : Text
  pub force_query : Bool
  pub raw_query : Text
  pub fragment : Text
