-- ===== src/Scripts/TrafficTests.antt =====
-- A run of generate_demo_traffic.py against a concrete client, and the theorem at concrete data.
use mathlib.Core.List.{Perm}
use mathlib.Core.List.Perm
use kube_delivery_platform.Prelude.{
  ℕ, suc, ◌≡◌, refl, ◌⊎◌, ◌≢◌, inl, inr, String, ◌==◌, Bool, List, [], ◌∷◌, ltb, if◌then◌else◌, ◌*◌,
}
use kube_delivery_platform.Python.Exec.{Error, Reply, returned, raised, value_error, other_error}
use kube_delivery_platform.Scripts.Traffic.{
  answered, http_error, Client, is_success, generate_mock_shipment, spoil, time_request,
  send_request, send_all, tally, Summary, average, throughput_of, summarize, Arguments, main,
}
use kube_delivery_platform.Scripts.Traffic.Tally.{Ended, main-IsSummary}

-- A state counts the calls made in it. A request is refused when it comes late.
abbrev client : Client
client = record {
  State = ℕ;
  Float = ℕ;
  sample_two = λ cities s. (("New York, NY", "Austin, TX"), suc s);
  choice = λ customers s. ("Acme Corp", suc s);
  randint = λ a b s. (a, suc s);
  uniform_weight = λ s. (12, suc s);
  random = λ s. (1, suc s);
  less = ltb;
  bad_weight = 0;
  zero_float = 0;
  perf_counter = λ s. (s, suc s);
  Request = String;
  new_request = λ url shipment s.
      (if url == "" then inl (value_error "unknown url type: ''") else inr url, suc s);
  urlopen = λ req s. (if ltb s 16 then answered 201 else http_error, suc s);
  milliseconds = λ start end. end;
  mean = λ lats. 7;
  rate = λ n d. n;
  percent = λ a b. a;
}

abbrev args : String → ℕ → ℕ → Arguments client
args url count concurrency = record {
  url = url;
  count = count;
  concurrency = concurrency;
  fail_rate = 0;
}

abbrev api : String
api = "http://localhost:8080/api/v1/shipments"

-- Each request starts later than the one before.
abbrev views : ℕ → ℕ
views i = i * 10

-- The result that is last in the list completes first.
abbrev turned : List (Error ⊎ (Bool × ℕ)) → List (Error ⊎ (Bool × ℕ))
turned [] = []
turned (x ∷ []) = x ∷ []
turned (x ∷ y ∷ []) = y ∷ x ∷ []
turned (x ∷ y ∷ z ∷ rest) = x ∷ y ∷ z ∷ rest

run : String → ℕ → ℕ → Reply (Summary client)
unfolding main summarize average throughput_of tally send_all send_request time_request spoil
    generate_mock_shipment is_success
run url count concurrency = main client turned 5 (args url count concurrency) views

run_two :
    run api 2 5
    ≡ returned
        (record { total = 2; successful = 1; success_rate = 1; throughput = 2; avg_latency = 7 })
unfolding run
run_two = refl

run_none : run api 0 5 ≡ raised (other_error "ZeroDivisionError")
unfolding run
run_none = refl

run_no_url : run "" 2 5 ≡ raised (value_error "unknown url type: ''")
unfolding run
run_no_url = refl

turned-Perm : (x y : Error ⊎ (Bool × ℕ)) → Perm (turned (x ∷ y ∷ [])) (x ∷ y ∷ [])
turned-Perm x y = Perm.swap x y []

main-IsSummary_example :
    let results = send_all client api 0 2 views in
    let r = main client turned 5 (args api 2 5) views in
    let a : Arguments client = args api 2 5 in
    ((a.concurrency ≡ 0) × (r ≡ raised (value_error "max_workers must be greater than 0")))
    ⊎ ((a.concurrency ≢ 0) × Ended client turned (args api 2 5) results r)
unfolding send_all
main-IsSummary_example = main-IsSummary client turned 5 (args api 2 5) views (turned-Perm _ _)
