-- ===== src/Examples/Files.antt =====
-- The theorems on the token of the metrics and on the databases at concrete inputs.
use proxpulse_judge.Base.{ℕ, ◌≡◌, ◌↔◌, true, none, some, [], ◌∷◌, Text, codes}
use proxpulse_judge.Str.Basic.{as_bytes}
use proxpulse_judge.App.Request.{HeaderMap}
use proxpulse_judge.App.Handlers.{presented_token, may_read_metrics}
use proxpulse_judge.App.Token.{may_read_metrics_iff}
use proxpulse_judge.Base.{ok, err}
use proxpulse_judge.Geo.Pool.{Reader}
use proxpulse_judge.Geo.Open.{Directory, open_pool}
use proxpulse_judge.Geo.Kinds.{HasKind, open_pool-HasKind}
use proxpulse_judge.Examples.Setting.{toy_world}

abbrev bearer : HeaderMap
bearer = (codes "authorization", codes "Bearer secret") ∷ []

may_read_metrics_iff_example :
    (may_read_metrics toy_world (some (codes "secret")) bearer ≡ true) ↔ (
      (p : Text) × (presented_token toy_world bearer ≡ some p)
      × (as_bytes p ≡ as_bytes (codes "secret")))
may_read_metrics_iff_example = may_read_metrics_iff toy_world (codes "secret") bearer

-- A file that is named for cities, and holds a database of networks.
abbrev networks : Reader ℕ
networks = record { database_type = codes "GeoLite2-ASN"; lookup = λ a. err []; structure = ok tt }

abbrev misnamed : Directory ℕ
misnamed = record { exists = λ n. true; entries = none; open_readfile = λ n. some networks }

open_pool-HasKind_example :
    HasKind misnamed (codes "city") (open_pool misnamed).city
    × HasKind misnamed (codes "country") (open_pool misnamed).country
    × HasKind misnamed (codes "asn") (open_pool misnamed).asn
open_pool-HasKind_example = open_pool-HasKind misnamed
