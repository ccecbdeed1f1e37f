-- ===== src/Logs/Links.antt =====
-- Deep links into the request log.
use wai_ai.Common.{◌≡◌, refl, ◌∙◌, String, true, false, Option, none, some, or_default, ◌==◌}
use wai_ai.Common.Int.{ℤ}
use wai_ai.Common.Text.{present}
use wai_ai.Logs.{
  UrlParams, UrlLaws, StatusFilter, success, error, parse_status, LogsDrilldown, set_some,
  set_range, optional_name, link_params, model_of, request_of, read_filters,
}
use wai_ai.TimeRange.{TimeRangeValue, time_range_key, parse_time_range}
use wai_ai.TimeRange.RoundTrip.{IsReadable, parse_time_range-time_range_key}

module _ {Params : Type 0} (u : UrlParams Params) (laws : UrlLaws u) where
  -- What is read after a value was set under the same key, which had none, or under another.
  same_key :
      (k : String) (v : Option String) (p : Params)
      → (k == k) ≡ true
      → u.get k p ≡ none
      → u.get k (set_some u k v p) ≡ present v
  unfolding set_some
  same_key k none p e h = h
  same_key k (some String.[]) p e h = h
  same_key k (some (String.◌∷◌ c s)) p e h = laws.get-set k k (String.◌∷◌ c s) p ∙ rw e refl

  other_key :
      (k j : String) (v : Option String) (p : Params)
      → (j == k) ≡ false
      → u.get k (set_some u j v p) ≡ u.get k p
  unfolding set_some
  other_key k j none p e = refl
  other_key k j (some String.[]) p e = refl
  other_key k j (some (String.◌∷◌ c s)) p e = laws.get-set k j (String.◌∷◌ c s) p ∙ rw e refl

  other_range :
      (k : String) (o : Option TimeRangeValue) (p : Params)
      → ("range" == k) ≡ false
      → u.get k (set_range u o p) ≡ u.get k p
  other_range k none p e = refl
  other_range k (some r) p e = laws.get-set k "range" (time_range_key r) p ∙ rw e refl

  abbrev range_text : Option TimeRangeValue → Option String
  range_text none = none
  range_text (some r) = some (time_range_key r)

  same_range :
      (o : Option TimeRangeValue) (p : Params)
      → u.get "range" p ≡ none
      → u.get "range" (set_range u o p) ≡ range_text o
  same_range none p h = h
  same_range (some r) p h = laws.get-set "range" "range" (time_range_key r) p

  parse_status-name : (o : Option StatusFilter) → parse_status (present (optional_name o)) ≡ o
  unfolding parse_status
  parse_status-name none = refl
  parse_status-name (some success) = refl
  parse_status-name (some error) = refl

  or_empty : (o : Option String) → or_default (present o) "" ≡ or_default o ""
  or_empty none = refl
  or_empty (some String.[]) = refl
  or_empty (some (String.◌∷◌ c s)) = refl

  read_range :
      (parse_date : String → Option ℤ) (o : Option TimeRangeValue)
      → ((r : TimeRangeValue) → o ≡ some r → IsReadable parse_date r)
      → parse_time_range parse_date (range_text o) ≡ o
  unfolding parse_time_range
  read_range parse_date none h = refl
  read_range parse_date (some r) h = parse_time_range-time_range_key parse_date r (h r refl)

  module _ (d : LogsDrilldown) where
    abbrev p1 : Params
    p1 = set_some u "status" (optional_name d.status) u.empty

    abbrev p2 : Params
    p2 = set_some u "model" d.model p1

    abbrev p3 : Params
    p3 = set_some u "key_id" d.key_id p2

    abbrev p4 : Params
    p4 = set_range u d.range p3

    get_status :
        u.get "status" (set_some u "request" d.request p4) ≡ present (optional_name d.status)
    get_status =
        other_key "status" "request" d.request p4 refl
        ∙ other_range "status" d.range p3 refl
        ∙ other_key "status" "key_id" d.key_id p2 refl
        ∙ other_key "status" "model" d.model p1 refl
        ∙ same_key "status" (optional_name d.status) u.empty refl (laws.get-empty "status")

    get_model : u.get "model" (set_some u "request" d.request p4) ≡ present d.model
    get_model =
        other_key "model" "request" d.request p4 refl
        ∙ other_range "model" d.range p3 refl
        ∙ other_key "model" "key_id" d.key_id p2 refl
        ∙ same_key "model" d.model p1 refl (
            other_key "model" "status" (optional_name d.status) u.empty refl
            ∙ laws.get-empty "model")

    get_key : u.get "key_id" (set_some u "request" d.request p4) ≡ present d.key_id
    get_key =
        other_key "key_id" "request" d.request p4 refl
        ∙ other_range "key_id" d.range p3 refl
        ∙ same_key "key_id" d.key_id p2 refl (
            other_key "key_id" "model" d.model p1 refl
            ∙ other_key "key_id" "status" (optional_name d.status) u.empty refl
            ∙ laws.get-empty "key_id")

    get_range : u.get "range" (set_some u "request" d.request p4) ≡ range_text d.range
    get_range =
        other_key "range" "request" d.request p4 refl
        ∙ same_range d.range p3 (
            other_key "range" "key_id" d.key_id p2 refl
            ∙ other_key "range" "model" d.model p1 refl
            ∙ other_key "range" "status" (optional_name d.status) u.empty refl
            ∙ laws.get-empty "range")

    get_request : u.get "request" (set_some u "request" d.request p4) ≡ present d.request
    get_request = same_key "request" d.request p4 refl (
        other_range "request" d.range p3 refl
        ∙ other_key "request" "key_id" d.key_id p2 refl
        ∙ other_key "request" "model" d.model p1 refl
        ∙ other_key "request" "status" (optional_name d.status) u.empty refl
        ∙ laws.get-empty "request")

  -- With parameters that keep what is set, the page that is opened with those of a link has the
  -- status, the model, the key, the range and the request of the link, where an absent text is the
  -- empty one, if a custom range has ends that are dates with neither adjacent dots nor a dot at
  -- the end.
  pub read_filters-link_params :
      (parse_date : String → Option ℤ) (d : LogsDrilldown)
      → ((r : TimeRangeValue) → d.range ≡ some r → IsReadable parse_date r)
      → read_filters u parse_date (link_params u d) ≡ record {
        status = d.status;
        model = or_default d.model "";
        key_id = or_default d.key_id "";
        range = d.range;
        request = or_default d.request "";
      }
  unfolding read_filters model_of request_of link_params
  read_filters-link_params parse_date d h =
      rw
        (
          get_status d,
          get_model d,
          get_key d,
          get_range d,
          get_request d,
          parse_status-name d.status,
          or_empty d.model,
          or_empty d.key_id,
          or_empty d.request,
          read_range parse_date d.range h,
        )
        refl
