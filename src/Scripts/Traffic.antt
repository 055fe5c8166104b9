-- ===== src/Scripts/Traffic.antt =====
-- scripts/generate_demo_traffic.py: requests against shipment-api, and their summary.
pub mod Tally
use Prim.Native.String.{◌++◌ as ◌<>◌}
use kube_delivery_platform.Python.Text.{decimal}
use kube_delivery_platform.Prelude.{
  ℕ, zero, suc, ◌+◌, String, Bool, false, ◌||◌, List, [], ◌∷◌, ◌++◌, eqb, if◌then◌else◌, ◌⊎◌, inl,
  inr,
}
use kube_delivery_platform.Python.Exec.{Error, Reply, returned, raised, value_error, other_error}
use kube_delivery_platform.Python.Exec.Replies.{◌>>=◌}

abbrev cities : List String
cities =
    "New York, NY" ∷ "Los Angeles, CA" ∷ "Chicago, IL" ∷ "Austin, TX" ∷ "Seattle, WA" ∷ "Miami, FL"
    ∷ "Boston, MA" ∷ []

abbrev customers : List String
customers = "Acme Corp" ∷ "TechForward" ∷ "Global Retail" ∷ "Omni Logistics" ∷ "BlueSky Inc" ∷ []

-- The body of a request, which is sent as JSON.
pub record Shipment (Float : Type 0) : Type 0 where
  pub sender_name : String
  pub recipient_name : String
  pub origin : String
  pub destination : String
  pub weight_kg : Float

-- How `urlopen` ends: with a status, with an `HTTPError`, or with another exception.
pub data Response : Type 0 where
  answered : ℕ → Response
  http_error : Response
  failed : Response

-- Chance, the clock, the network and floating point numbers. Every call changes the state.
pub record Client : Type 1 where
  pub State : Type 0
  pub Float : Type 0
  pub sample_two : List String → State → (String × String) × State
  pub choice : List String → State → String × State
  pub randint : ℕ → ℕ → State → ℕ × State
  pub uniform_weight : State → Float × State  -- round(random.uniform(0.5, 35.0), 2)
  pub random : State → Float × State
  pub less : Float → Float → Bool
  pub bad_weight : Float  -- the literal -1.0
  pub zero_float : Float  -- the literal 0.0
  pub perf_counter : State → Float × State
  pub Request : Type 0
  -- `urllib.request.Request` with the body encoded and the time in a header; a text that is no URL
  -- raises a `ValueError`
  pub new_request : String → Shipment Float → State → (Error ⊎ Request) × State
  pub urlopen : Request → State → Response × State
  -- (end - start) * 1000, sum(xs) / len(xs), n / d, and a / b * 100 for b other than 0
  pub milliseconds : Float → Float → Float
  pub mean : List Float → Float
  pub rate : ℕ → Float → Float
  pub percent : ℕ → ℕ → Float

unfoldable pub is_success : Response → Bool
is_success (answered status) = eqb status 200 || eqb status 201
is_success _ = false

module _ (C : Client) where
  unfoldable pub generate_mock_shipment : C.State → Shipment C.Float × C.State
  generate_mock_shipment s =
      let ((origin, destination), s₁) = C.sample_two cities s in
      let (sender_name, s₂) = C.choice customers s₁ in
      let (n, s₃) = C.randint 100 999 s₂ in
      let (weight_kg, s₄) = C.uniform_weight s₃ in
      (
        record {
          sender_name = sender_name;
          recipient_name = "Recipient-" <> decimal n;
          origin = origin;
          destination = destination;
          weight_kg = weight_kg;
        },
        s₄,
      )

  -- The deliberate error: a weight that the API rejects.
  unfoldable pub spoil : C.Float → Shipment C.Float → C.State → Shipment C.Float × C.State
  spoil fail_rate shipment s =
      let (r, s') = C.random s in
      (if C.less r fail_rate then record shipment { weight_kg = C.bad_weight } else shipment, s')

  -- The request is under way: every exception of `urlopen` counts as no success.
  unfoldable pub time_request : C.Float → C.Request → C.State → (Error ⊎ (Bool × C.Float)) × C.State
  time_request start req s =
      let (response, s₁) = C.urlopen req s in
      let (end, s₂) = C.perf_counter s₁ in (inr (is_success response, C.milliseconds start end), s₂)

  -- Whether the request succeeded, and its latency. An error in making it is raised.
  unfoldable pub send_request : String → C.Float → C.State → (Error ⊎ (Bool × C.Float)) × C.State
  send_request url fail_rate s =
      let (start, s₁) = C.perf_counter s in
      let (shipment, s₂) = generate_mock_shipment s₁ in
      let (body, s₃) = spoil fail_rate shipment s₂ in
      let (made, s₄) = C.new_request url body s₃ in
      elim made [ inl err ↦ (inl err, s₄) | inr req ↦ time_request start req s₄ ]

  -- The futures' results. The requests run at the same time, so each starts in a state of its own,
  -- `views i`, and what the others do meanwhile is part of what its calls do to that state.
  unfoldable pub send_all : String → C.Float → ℕ → (ℕ → C.State) → List (Error ⊎ (Bool × C.Float))
  send_all url fail_rate zero views = []
  send_all url fail_rate (suc count) views =
      (send_request url fail_rate (views count)).0 ∷ send_all url fail_rate count views

  -- The loop over the completed futures. `future.result()` raises what the request raised.
  unfoldable pub tally :
      List (Error ⊎ (Bool × C.Float)) → ℕ → List C.Float → Reply (ℕ × List C.Float)
  tally [] success_count latencies = returned (success_count, latencies)
  tally (inl err ∷ rest) success_count latencies = raised err
  tally (inr (ok, lat) ∷ rest) success_count latencies =
      tally rest (if ok then success_count + 1 else success_count) (latencies ++ (lat ∷ []))

  pub record Summary : Type 0 where
    pub total : ℕ
    pub successful : ℕ
    pub success_rate : C.Float
    pub throughput : C.Float
    pub avg_latency : C.Float

  unfoldable pub average : List C.Float → C.Float
  average [] = C.zero_float
  average (lat ∷ rest) = C.mean (lat ∷ rest)

  unfoldable pub throughput_of : ℕ → C.Float → C.Float
  throughput_of count total_duration =
      if C.less C.zero_float total_duration then C.rate count total_duration else C.zero_float

  -- What is printed. With no requests the success rate divides by zero.
  unfoldable pub summarize : ℕ → ℕ × List C.Float → C.Float → Reply Summary
  summarize zero (success_count, latencies) total_duration =
      raised (other_error "ZeroDivisionError")
  summarize (suc n) (success_count, latencies) total_duration = returned (record {
    total = suc n;
    successful = success_count;
    success_rate = C.percent success_count (suc n);
    throughput = throughput_of (suc n) total_duration;
    avg_latency = average latencies;
  })

  -- The arguments, of which the numbers are natural ones.
  pub record Arguments : Type 0 where
    pub url : String
    pub count : ℕ
    pub concurrency : ℕ
    pub fail_rate : C.Float

  -- `as_completed` is the order in which the results arrive, and `total_duration` the time that the
  -- requests took.
  unfoldable pub main :
      (List (Error ⊎ (Bool × C.Float)) → List (Error ⊎ (Bool × C.Float)))
      → C.Float
      → Arguments
      → (ℕ → C.State)
      → Reply Summary
  main as_completed total_duration args views =
      let results = send_all args.url args.fail_rate args.count views in
      let summary : Reply Summary = do
        counted ← tally (as_completed results) 0 []
        summarize args.count counted total_duration
      in if eqb args.concurrency 0
        then raised (value_error "max_workers must be greater than 0")
        else summary
