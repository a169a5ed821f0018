-- ===== src/Examples/Orders.antt =====
-- The theorems on the order of headers, on look-ups, on kinds of networks and on answers at concrete
-- inputs.
use proxpulse_judge.Base.{
  ℕ, ◌≤◌, ◌≡◌, false, true, refl, none, some, [], ◌∷◌, ◌++◌, if◌then◌else◌, arith, Text, codes, any,
  text_eq, text_eq_iff,
}
use proxpulse_judge.Str.Basic.{to_ascii_lowercase}
use proxpulse_judge.Dict.{Dict, get}
use proxpulse_judge.Cache.{keep_all}
use proxpulse_judge.Anonymity.Basic.{anonymity_level}
use proxpulse_judge.Anonymity.Order.{anonymity_level-SameEntries}
use proxpulse_judge.Geo.Pool.{GeoPool, attributions, labels}
use proxpulse_judge.Geo.Notices.{owes, dbip_notice, maxmind_notice, attributions-owed}
use proxpulse_judge.App.State.{AppState, new_state}
use proxpulse_judge.App.Request.{HeaderMap, get_all, self_ip}
use proxpulse_judge.App.Lower.{HasLowerNames}
use proxpulse_judge.App.Order.{verdict-SameValues}
use proxpulse_judge.App.Rdns.{RdnsRun, maybe_rdns}
use proxpulse_judge.Float.{fixed_point}
use proxpulse_judge.RateLimit.Basic.{check}
use proxpulse_judge.Metrics.Basic.{zero_metrics}
use proxpulse_judge.Sign.Basic.{from_seed}
use proxpulse_judge.App.Reply.{IsReply, judge-served}
use proxpulse_judge.App.Lookups.{
  Tasks, ask, Reach, begins, goes, left, IsConserved, Reach-IsConserved,
}
use proxpulse_judge.App.Middleware.{Request, service, Timing}
use proxpulse_judge.App.Handlers.{geo_ep, ip_type, headers_echo}
use proxpulse_judge.App.Judge.{judge, verdict, route}
use proxpulse_judge.App.Schema.{
  judge_schema, geo_answer_schema, type_answer_schema, headers_answer_schema,
}
use proxpulse_judge.App.Answers.{HasJson, answers-HasJson}
use proxpulse_judge.Examples.Setting.{
  toy_crypto, toy_world, toy_state, in_time, toy_config, no_pool, request_of,
}

abbrev via_first : Dict Text
via_first = (codes "via", codes "1.1 proxy") ∷ (codes "x-forwarded-for", codes "9.9.9.9") ∷ []

abbrev via_last : Dict Text
via_last = (codes "x-forwarded-for", codes "9.9.9.9") ∷ (codes "via", codes "1.1 proxy") ∷ []

swapped :
    (a b k : Text) (v w : Text)
    → text_eq a b ≡ false
    → get ((a, v) ∷ (b, w) ∷ []) k ≡ get ((b, w) ∷ (a, v) ∷ []) k
unfolding get
swapped a b k v w apart = ground (arith, text_eq_iff a k, text_eq_iff b k, text_eq_iff a b, apart)

anonymity_level-SameEntries_example :
    anonymity_level via_first (some (codes "1.2.3.4")) true
    ≡ anonymity_level via_last (some (codes "1.2.3.4")) true
anonymity_level-SameEntries_example =
    anonymity_level-SameEntries via_first via_last (some (codes "1.2.3.4")) true (refl, (refl, tt))
      (refl, (refl, tt)) (λ k. swapped (codes "via") (codes "x-forwarded-for") k _ _ refl)

abbrev lines : HeaderMap
lines = (codes "via", codes "1.1 proxy") ∷ (codes "x-forwarded-for", codes "5.6.7.8") ∷ []

abbrev other_lines : HeaderMap
other_lines = (codes "x-forwarded-for", codes "5.6.7.8") ∷ (codes "via", codes "1.1 proxy") ∷ []

swapped_lines :
    (a b k : Text) (v w : Text)
    → text_eq a b ≡ false
    → get_all ((a, v) ∷ (b, w) ∷ []) k ≡ get_all ((b, w) ∷ (a, v) ∷ []) k
unfolding get_all
swapped_lines a b k v w apart =
    ground (arith, text_eq_iff a k, text_eq_iff b k, text_eq_iff a b, apart)

lines_lower : HasLowerNames lines
unfolding to_ascii_lowercase
lines_lower = (refl, (refl, tt))

other_lines_lower : HasLowerNames other_lines
unfolding to_ascii_lowercase
other_lines_lower = (refl, (refl, tt))

abbrev asked : Request
asked = record (request_of (codes "/judge")) { headers = lines }

verdict-SameValues_example :
    verdict toy_world toy_state asked
    ≡ verdict toy_world toy_state (record asked { headers = other_lines })
verdict-SameValues_example =
    verdict-SameValues toy_world toy_state asked other_lines lines_lower other_lines_lower
      (λ k. swapped_lines (codes "via") (codes "x-forwarded-for") k _ _ refl)

-- A look-up of 8.8.8.8 whose answer does not come in time.
abbrev fresh : AppState toy_world
fresh = new_state toy_world no_pool toy_config

late : RdnsRun toy_world
unfolding new_state
late = record {
  permit = true;
  meanwhile = record {
    geo_cache = fresh.geo_cache;
    ptr_cache = fresh.ptr_cache;
    rdns_sem = 16;
    rate_limit = fresh.rate_limit;
    metrics = fresh.metrics;
    concurrency = fresh.concurrency;
  };
  name = none;
  in_time = false;
}

abbrev after : Tasks toy_world
after = record {
  state = (maybe_rdns toy_world late fresh (codes "8.8.8.8") none).state;
  running = left (maybe_rdns toy_world late fresh (codes "8.8.8.8") none).started;
}

-- The look-up goes on: fifteen permits are free.
one_running : (after.running ≡ codes "8.8.8.8" ∷ []) × (after.state.rdns_sem ≡ 15)
unfolding maybe_rdns new_state keep_all late
one_running = (refl, refl)

same_permits : late.meanwhile.rdns_sem ≡ fresh.rdns_sem
unfolding new_state late
same_permits = refl

free_permit : late.permit ≡ true → 1 ≤ fresh.rdns_sem
unfolding new_state
free_permit h = omega arith

after-Reach : Reach toy_world after
after-Reach =
    goes (ask late (codes "8.8.8.8") none same_permits free_permit refl) (begins no_pool toy_config)

Reach-IsConserved_example : IsConserved toy_world after
Reach-IsConserved_example = Reach-IsConserved toy_world after-Reach

answers-HasJson_example :
    HasJson toy_world judge_schema (judge toy_world late asked toy_state).0.body
    × HasJson toy_world geo_answer_schema (geo_ep toy_world asked toy_state).0.body
    × HasJson toy_world type_answer_schema (ip_type toy_world late asked toy_state).0.body
    × HasJson toy_world headers_answer_schema (headers_echo toy_world asked toy_state).0.body
answers-HasJson_example = answers-HasJson toy_world late asked toy_state

-- A city database of DB-IP beside a network database of MaxMind.
abbrev two_makers : GeoPool ℕ
two_makers = record no_pool {
  sources =
      (codes "city", codes "dbip-city-lite.mmdb") ∷ (codes "asn", codes "GeoLite2-ASN.mmdb") ∷ [];
}

attributions-owed_example :
    attributions two_makers
    ≡ (if any (owes dbip_notice) (labels two_makers) then dbip_notice ∷ [] else [])
      ++ (if any (owes maxmind_notice) (labels two_makers) then maxmind_notice ∷ [] else [])
attributions-owed_example = attributions-owed two_makers

-- 5.6.7.8 asks for a verdict.
has_token :
    (check fixed_point
      (keep_all ℕ)
      fresh.rate_limit
      (self_ip toy_world fresh asked.headers asked.conn)
      in_time.made
      in_time.now).1
    ≡ none
unfolding new_state keep_all check self_ip
has_token = refl

fresh_seeded : fresh.signer ≡ from_seed toy_crypto [] true
unfolding new_state from_seed
fresh_seeded = refl

judge-served_example :
    IsReply toy_world asked fresh.signer.public_key
      (service toy_world in_time asked (route toy_world (codes "1") late asked) fresh).0
judge-served_example =
    judge-served toy_world in_time (codes "1") late asked fresh [] true refl refl refl has_token
      refl refl fresh_seeded (λ b. refl) refl

-- The handler is cut off, after another task has taken a permit.
abbrev cut_off : Timing toy_world
cut_off = record in_time {
  cut = some (record {
    geo_cache = fresh.geo_cache;
    ptr_cache = fresh.ptr_cache;
    rdns_sem = 16;
    rate_limit = fresh.rate_limit;
    metrics = zero_metrics;
    concurrency = 510;
  });
}
