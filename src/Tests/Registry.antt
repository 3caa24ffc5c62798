-- ===== src/Tests/Registry.antt =====
-- internal/rdap: the client and its cache at concrete inputs.
use mathlib.Core.List.Perm
use auto_cert.Base.{
  ◌≡◌, ◌≢◌, refl, Option, none, some, List, [], ◌∷◌, list_eq, nat_eq, pair_eq, arith,
}
use auto_cert.Base.Int.{ℤ, pos, int_eq, ◌-ℤ◌}
use auto_cert.Base.Text.{Text, codes, to_lower}
use auto_cert.Base.Dict.{lookup, insert}
use auto_cert.Base.Codec.{Codec, IsFaithful}
use auto_cert.Base.Result.{ok}
use auto_cert.Base.Sort.{sort_slice}
use auto_cert.Files.{healthy, read_file, mkdir_all, write_file, rename, write_rename}
use auto_cert.Http.{Web}
use auto_cert.Time.{Time}
use auto_cert.Rdap.Cache.{
  CachedEntry, cached_entry, get, put, new_mem_backend, mem_cache, cached_looker,
}
use auto_cert.Rdap.Cache.Fresh.{Stored, put_all}
use auto_cert.Rdap.Cache.Steady.{mem_cache-IsSteady}
use auto_cert.Rdap.Looker.{Looker}
use auto_cert.Rdap.FileCache.{new_file_cache, flush}
use auto_cert.Rdap.FileCache.Flush as Flush
use auto_cert.Rdap.FileCache.Reload.{get_next_run}
use auto_cert.Rdap.Client.{
  Decoders, Endpoints, endpoint_for, new_client, fetch_endpoints, query, resolve, load_bootstrap,
  client_lookup,
}
use auto_cert.Rdap.Client.Endpoint.{endpoint_for_longest, Resolved}
use auto_cert.Rdap.Client.Bootstrap.{Call}
use auto_cert.Rdap.Client.Answers.{Describes, client_lookup-Describes}
use auto_cert.Rdap.Client.Steady.{client_looker, client_looker-IsSteady}
use auto_cert.Rdap.Enrich.{enrich, group_by_apex, blank_info}
use auto_cert.Rdap.Through.{process_through, enrich_through}
use auto_cert.Tests.Codecs.{one_list, one_list-IsFaithful}
use auto_cert.Tests.Samples.{day, example_info, example_domain, www_domain}

abbrev now : Time
now = day (pos 95)

abbrev example_name : Text
example_name = codes "example.com"

abbrev one_call : List Stored
one_call = record { at = now; domain = example_name; info = example_info } ∷ []

-- The next day the entry is there, after ten days it is not.
hit_test :
    get (day (pos 96)) (codes "Example.com") (put_all one_call (new_mem_backend (pos 0))) ≢ none
unfolding get put_all put new_mem_backend insert lookup to_lower ◌-ℤ◌
hit_test = ground arith

expired_test :
    get (day (pos 105)) (codes "Example.com") (put_all one_call (new_mem_backend (pos 0))) ≡ none
unfolding get put_all put new_mem_backend insert lookup to_lower ◌-ℤ◌
expired_test = refl

-- A registry with one endpoint, which answers every question with one date.
abbrev sample_web : Web
sample_web = record {
  new_request = λ url. ok tt;
  send = λ url. ok (record { status = 200; body = ok (codes "{}") });
}

abbrev sample_decoders : Decoders
sample_decoders = record {
  unmarshal_services = λ body.
      ok (
        ((codes "COM." ∷ codes "net" ∷ []) ∷ (codes "http://a" ∷ codes "https://b" ∷ []) ∷ [])
        ∷ []);
  unmarshal_events =
      λ body. ok ((codes "registration", codes "x") ∷ (codes "Expiration", codes "y") ∷ []);
  parse_time = λ s. ok (day (pos 400));
}

abbrev client : Looker
client = client_looker sample_decoders sample_web (λ domain. now)

-- A codec that knows the entry of the example.
abbrev Parts : Type 0
Parts = (Text × Text) × ((ℤ × ℤ) × ((ℤ × ℤ) × (ℤ × ℤ)))

abbrev parts : CachedEntry → Parts
parts e = (
  (e.domain, e.source),
  (
    (e.expires_at.instant, e.expires_at.zone),
    ((e.checked_at.instant, e.checked_at.zone), (e.cached_at.instant, e.cached_at.zone)),
  ),
)

abbrev of_parts : Parts → CachedEntry
of_parts p = record {
  domain = p.0.0;
  source = p.0.1;
  expires_at = record { instant = p.1.0.0; zone = p.1.0.1 };
  checked_at = record { instant = p.1.1.0.0; zone = p.1.1.0.1 };
  cached_at = record { instant = p.1.1.1.0; zone = p.1.1.1.1 };
}

abbrev known_entries : List CachedEntry
known_entries = cached_entry now example_info ∷ []

abbrev sample_json : Codec (List CachedEntry)
sample_json = one_list parts of_parts (λ e. refl) known_entries

sample_json-IsFaithful : IsFaithful sample_json
sample_json-IsFaithful = one_list-IsFaithful parts of_parts (λ e. refl) known_entries

abbrev path : Text
path = codes "rdap.json"

first_flush :
    (flush sample_json path healthy
      (put_all one_call (new_file_cache sample_json path (pos 0) healthy []))
      []).0
    ≡ ok tt
unfolding flush put_all put new_file_cache new_mem_backend read_file mkdir_all write_rename
    write_file rename sort_slice insert lookup to_lower
first_flush = refl

get_next_run_example :
    get (day (pos 96)) example_name (
      new_file_cache sample_json path
        (pos 0)
        healthy
        (flush sample_json path healthy
          (put_all one_call (new_file_cache sample_json path (pos 0) healthy []))
          []).1.1)
    ≡ get
        (day (pos 96))
        example_name
        (put_all one_call (new_file_cache sample_json path (pos 0) healthy []))
unfolding to_lower
get_next_run_example =
    get_next_run sample_json path (pos 0) one_call (refl, tt) healthy [] healthy healthy
      (day (pos 96)) example_name sample_json-IsFaithful refl first_flush refl

abbrev sample_endpoints : Endpoints
sample_endpoints =
    (codes "co", codes "https://co/") ∷ (codes "com.co", codes "https://com.co/") ∷ []

endpoint_test : endpoint_for sample_endpoints (codes "Algo.com.co.") ≡ ok (codes "https://com.co/")
unfolding endpoint_for
endpoint_test = refl

endpoint_for_longest_example :
    Resolved sample_endpoints
      (codes "Algo.com.co.")
      (endpoint_for sample_endpoints (codes "Algo.com.co."))
endpoint_for_longest_example = endpoint_for_longest sample_endpoints (codes "Algo.com.co.")

abbrev first_call : Call
first_call = record { web = sample_web; now = now; domain = example_name }

look_up_test :
    (client_lookup sample_decoders sample_web now example_name new_client).0.expires_at
    ≡ day (pos 400)
unfolding client_lookup load_bootstrap resolve endpoint_for fetch_endpoints query
look_up_test = refl

client_lookup-Describes_example :
    Describes sample_decoders now example_name sample_web
      (load_bootstrap sample_decoders sample_web new_client)
      (client_lookup sample_decoders sample_web now example_name new_client).0
client_lookup-Describes_example =
    client_lookup-Describes sample_decoders now sample_web example_name new_client

abbrev suffixes : Text → Option Text
suffixes name = some example_name

-- The client behind its cache.
abbrev cached_client : Looker
cached_client = cached_looker client mem_cache (λ domain. now) (λ domain. now)

enrich_through_example :
    (process_through cached_client
      (λ apex. now)
      (pos 1)
      (example_domain ∷ www_domain ∷ [])
      (group_by_apex suffixes (example_domain ∷ www_domain ∷ []))
      (blank_info ∷ blank_info ∷ [])
      (new_client, new_mem_backend (pos 0))).0
    ≡ enrich suffixes
        (λ a. (cached_client.look a (new_client, new_mem_backend (pos 0))).0)
        (λ apex. now)
        (pos 1)
        (example_domain ∷ www_domain ∷ [])
enrich_through_example =
    enrich_through suffixes (example_domain ∷ www_domain ∷ []) cached_client (λ apex. now) (pos 1)
      (mem_cache-IsSteady client (client_looker-IsSteady sample_decoders sample_web (λ domain. now))
        (λ domain. now) (λ domain. now))
      (new_client, new_mem_backend (pos 0))
      (group_by_apex suffixes (example_domain ∷ www_domain ∷ [])) Perm.rfl
