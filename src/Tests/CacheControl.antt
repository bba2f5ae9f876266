-- ===== src/Tests/CacheControl.antt =====
-- src/cache_control.cpp, src/split_string.h and the ranges of src/http_util.cpp at concrete inputs.
use ouinet.Prelude.{
  arith, ℕ, ◌+◌, ◌≡◌, refl, ◌↔◌, true, false, not, List, [], ◌∷◌, ◌++◌, none, some, Bytes, codes,
  ltb, ◌==◌,
}
use ouinet.Prelude.Int.{ℤ, pos, negsuc}
use ouinet.Bittorrent.NodeId.{id_eq}
use ouinet.Http.{Library, Field, cache_control, Fields, get_verb, RequestHeader, ResponseHeader}
use ouinet.Http.Split.{split_string, trim_back, trim_front}
use ouinet.Http.Split.RoundTrip.{IsItem, join, split_string-join}
use ouinet.Http.Ranges.{HttpRequestByteRange, parse}
use ouinet.Http.Ranges.RoundTrip.{print_ranges, parse-print_ranges}
use ouinet.CacheControl.{Session, CacheEntry}
use ouinet.CacheControl.Cacheable.{ok_to_cache}
use ouinet.CacheControl.Cacheable.Rules.{MayCache, ok_to_cache-MayCache}
use ouinet.CacheControl.Operations.{
  unexpected, expected, operation_aborted, CacheType, bep5_http, bep3_http_over_i2p, ouisync,
  CacheRequest, Controller, do_fetch_fresh, invalid_argument, to_inject,
}
use ouinet.CacheControl.Fetch.{
  do_fetch_stored, Event, fresh_done, stored_done, no_jobs, arrive, fetch,
}
use ouinet.CacheControl.Fetch.Served.{Succeeds, AnswersFairly, fetch-AnswersFairly}
use ouinet.CacheControl.Fetch.Answered.{BothEnd, IsAnswer, run_jobs, fetch-IsAnswer}

abbrev seconds_of : ℤ → ℕ
seconds_of (pos n) = n
seconds_of (negsuc n) = 0

abbrev appended : Fields → Field → Bytes → Fields
appended fields f v = fields ++ record { field = f; name = []; value = v } ∷ []

abbrev pub library : Library
library = record {
  iequals = id_eq;
  starts_with = λ s t. false;
  insert_field = appended;
  set_field = appended;
  Time = ℕ;
  not_a_date_time = 0;
  from_time_t = seconds_of;
  before = ltb;
  plus_seconds = λ t n. t + n;
  older_than = λ now t max. ltb (t + seconds_of max) now;
  read_date = λ b v. 0;
  is_date = λ t. not (t == 0);
  byte_behind = λ v. 0;
}

no_store-IsItem : IsItem b',' (codes "no-store")
unfolding trim_back trim_front
no_store-IsItem = ((refl, (refl, (refl, (refl, (refl, (refl, (refl, (refl, tt)))))))), refl)

max_age-IsItem : IsItem b',' (codes "max-age=5")
unfolding trim_back trim_front
max_age-IsItem = ((refl, (refl, (refl, (refl, (refl, (refl, (refl, (refl, (refl, tt))))))))), refl)

empty-IsItem : IsItem b',' []
unfolding trim_back trim_front
empty-IsItem = (tt, refl)

split_string-join_example :
    split_string (join b',' (codes "no-store") (codes "max-age=5" ∷ [] ∷ [])) b','
    ≡ codes "no-store" ∷ codes "max-age=5" ∷ [] ∷ []
split_string-join_example =
    split_string-join b',' (codes "no-store") (codes "max-age=5" ∷ [] ∷ []) no_store-IsItem
      (max_age-IsItem, (empty-IsItem, tt))

abbrev request_header : RequestHeader
request_header = record { method = get_verb; target = codes "http://a.org/"; fields = [] }

abbrev response_header : ResponseHeader
response_header = record {
  status = 200;
  fields =
      record { field = cache_control; name = codes "Cache-Control"; value = codes "private" } ∷ [];
}

ok_to_cache-MayCache_example :
    (ok_to_cache library request_header response_header false ≡ true)
    ↔ MayCache library request_header response_header false
ok_to_cache-MayCache_example = ok_to_cache-MayCache library request_header response_header false

abbrev session : Session
session = record { header = response_header; body = codes "hello" }

abbrev controller : Controller
controller = record {
  fetch_stored = some (λ rq. expected session);
  fetch_fresh = some (λ rq. expected session);
  max_cached_age = pos 60;
}

abbrev request : CacheRequest
request = record {
  header = request_header;
  cache_type = bep5_http;
  resource_id = codes "id";
  dht_group = codes "group";
}

abbrev entry : CacheEntry library
entry = record { time_stamp = 5; response = session }

abbrev events : List (Event library)
events = stored_done (expected entry) ∷ fresh_done (unexpected operation_aborted) ∷ []

abbrev IsOk : Session → Type 0
IsOk s = s.header.status ≡ 200

abbrev IsOkEntry : CacheEntry library → Type 0
IsOkEntry e = IsOk e.response

fresh_known :
    (rq : CacheRequest)
    → Succeeds library controller request 70 IsOk IsOkEntry IsOk (do_fetch_fresh controller rq)
unfolding do_fetch_fresh
fresh_known rq = go rq.cache_type
  where
    go :
        (t : CacheType)
        → Succeeds library controller request 70 IsOk IsOkEntry IsOk (elim (to_inject t rq) [
          | none ↦ unexpected invalid_argument
          | some inject_rq ↦ expected session
        ])
    go bep5_http = refl
    go bep3_http_over_i2p = refl
    go ouisync = tt

stored_known :
    Succeeds library controller request 70 IsOk IsOkEntry IsOkEntry
      (do_fetch_stored library controller request)
unfolding do_fetch_stored
stored_known = refl

fetch-AnswersFairly_example :
    AnswersFairly library controller request 70 IsOk IsOkEntry
      (fetch library controller request events 69 70)
fetch-AnswersFairly_example =
    fetch-AnswersFairly library controller request 70 IsOk IsOkEntry events 69 (refl, (tt, tt))
      fresh_known stored_known

both_end : BothEnd library (run_jobs library (no_jobs library) events)
unfolding run_jobs arrive
both_end = (refl, refl)

fetch-IsAnswer_example : IsAnswer library (fetch library controller request events 69 70)
fetch-IsAnswer_example = fetch-IsAnswer library controller request events 69 70 both_end

abbrev byte_range : HttpRequestByteRange
byte_range = record { first = 0; last = 65535 }

parse-print_ranges_example :
    parse 0 (codes "bytes=" ++ print_ranges byte_range (byte_range ∷ []))
    ≡ some (byte_range ∷ byte_range ∷ [])
parse-print_ranges_example =
    parse-print_ranges 0 byte_range (byte_range ∷ []) (omega arith) (omega arith) (omega arith)
