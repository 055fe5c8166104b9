-- ===== src/Worker/Machine/Passes.antt =====
-- One step of the loop over the lifecycle, as steps of the machine.
use kube_delivery_platform.Prelude.{
  Bool, ℕ, String, ◌≡◌, ◌≢◌, ◌⊎◌, inl, inr, refl, Option, List, ◌∷◌, arith, Bool-cases, eq_iff,
  ◌==◌, ap,
}
use kube_delivery_platform.Python.Value.{Value, str}
use kube_delivery_platform.Python.Exec.{Reply, returned, raised, cancelled}
use kube_delivery_platform.Python.Exec.Rules.{Leaves, if-Leaves, bind_rule}
use kube_delivery_platform.Worker.Services.{Services, Config}
use kube_delivery_platform.Worker.World.{World}
use kube_delivery_platform.Worker.Database.{set_status}
use kube_delivery_platform.Worker.Repository.{update_shipment_status}
use kube_delivery_platform.Worker.Repository.Rules.{IsFailure, acquired, update_rule}
use kube_delivery_platform.Worker.Consumer.{pause, advance}
use kube_delivery_platform.Worker.Machine.{
  Row, Others, Step, write, others, Reach, here, next, Reach-trans, Reach-Step,
}
use kube_delivery_platform.Worker.Machine.Laws.{Once, Executed, IsShared}

pub Value-cases : (v : Value) (id : String) → (v ≡ str id) ⊎ (v ≢ str id)
Value-cases (str s) id = elim (Bool-cases (s == id)) [
  | inl e ↦ inl (ap str ((eq_iff s id).0 e))
  | inr e ↦ inr (λ h. ground (arith, eq_iff s id))
]
Value-cases _ id = inr (λ h. cc)

module _ (S : Services) (cfg : Config S) (status_of : S.State → String → Option String) (O : Others)
    (shared : IsShared S status_of O) (id : String) where
  abbrev pub row : S.State → List String → Row
  row s todo = record { status = status_of s id; todo = todo }

  -- Only others wrote: whatever pass is under way, it stays where it is.
  abbrev pub Keeps : S.State → S.State → Type 0
  Keeps s s' = (todo : List String) → Reach O (row s todo) (row s' todo)

  pub Keeps-refl : (s : S.State) → Keeps s s
  Keeps-refl s = λ todo. here

  pub Keeps-trans : (s t u : S.State) → Keeps s t → Keeps t u → Keeps s u
  Keeps-trans s t u f g = λ todo. Reach-trans (f todo) (g todo)

  pub Keeps-others : (s s' : S.State) → O (status_of s id) (status_of s' id) → Keeps s s'
  Keeps-others s s' o = λ todo. Reach-Step (others o refl)

  abbrev pub Quiet : {A : Type 0} → World S.State → World S.State → Reply A → Type 0
  Quiet w w' r = Keeps w.env w'.env

  pause-Quiet : (w : World S.State) → Leaves (pause S cfg) w (Quiet w)
  unfolding pause
  pause-Quiet w =
      if-Leaves (Quiet w) (S.positive cfg.simulation_step_delay_sec) _ _ w
        (λ _. Keeps-others w.env _ (shared.sleep cfg.simulation_step_delay_sec w.env id))
        (λ _. Keeps-refl w.env)

  -- The next status was set, or the pass stopped before or after it.
  abbrev pub Sets : {A : Type 0} → String → List String → S.State → S.State → Reply A → Type 0
  Sets st rest s s' (returned a) = Reach O (row s (st ∷ rest)) (row s' rest)
  Sets st rest s s' _ = (left : List String) × Reach O (row s (st ∷ rest)) (row s' left)

  once-Reach :
      (st : String) (rest : List String) (s s' : S.State)
      → Once O st (status_of s id) (status_of s' id)
      → Reach O (row s (st ∷ rest)) (row s' rest)
  once-Reach st rest s s' (m, before, after) =
      let found : Row = record { status = m; todo = st ∷ rest } in
      let set : Row = record { status = set_status st m; todo = rest } in
      let one : Step O (row s (st ∷ rest)) found = others before refl in
      let two : Step O found set = write st rest refl refl in
      next (next (Reach-Step one) two) (others after refl)

  executed-Sets :
      (st : String) (rest : List String) (s s' : S.State) (r : Reply String)
      → Executed r O st (status_of s id) (status_of s' id)
      → Sets st rest s s' r
  executed-Sets st rest s s' (returned tag) once = once-Reach st rest s s' once
  executed-Sets st rest s s' (raised e) (inl o) = (st ∷ rest, Reach-Step (others o refl))
  executed-Sets st rest s s' (raised e) (inr once) = (rest, once-Reach st rest s s' once)
  executed-Sets st rest s s' cancelled (inl o) = (st ∷ rest, Reach-Step (others o refl))
  executed-Sets st rest s s' cancelled (inr once) = (rest, once-Reach st rest s s' once)

  Sets-after :
      {A : Type 0} (st : String) (rest : List String) (s t u : S.State) (r : Reply A)
      → Keeps s t
      → Sets st rest t u r
      → Sets st rest s u r
  Sets-after st rest s t u (returned a) k h = Reach-trans (k (st ∷ rest)) h
  Sets-after st rest s t u (raised e) k (left, h) = (left, Reach-trans (k (st ∷ rest)) h)
  Sets-after st rest s t u cancelled k (left, h) = (left, Reach-trans (k (st ∷ rest)) h)

  -- What holds of the machine after the statement holds after the connection was given back.
  Sets-then :
      {A : Type 0} (st : String) (rest : List String) (s t u : S.State) (r : Reply A)
      → Sets st rest s t r
      → Keeps t u
      → Sets st rest s u r
  Sets-then st rest s t u (returned a) h k = Reach-trans h (k rest)
  Sets-then st rest s t u (raised e) (left, h) k = (left, Reach-trans h (k left))
  Sets-then st rest s t u cancelled (left, h) k = (left, Reach-trans h (k left))

  -- A statement that had its effect, whatever the update ends with.
  Sets-loose :
      {A : Type 0} (st : String) (rest : List String) (s t : S.State) (r : Reply A)
      → Reach O (row s (st ∷ rest)) (row t rest)
      → Sets st rest s t r
  Sets-loose st rest s t (returned a) h = h
  Sets-loose st rest s t (raised e) h = (rest, h)
  Sets-loose st rest s t cancelled h = (rest, h)

  Sets-failed :
      {A B : Type 0} (st : String) (rest : List String) (s t : S.State) (q : Reply A) (r : Reply B)
      → IsFailure q
      → IsFailure r
      → Sets st rest s t q
      → Sets st rest s t r
  Sets-failed st rest s t (returned a) r (inl (e, f)) g h = cc
  Sets-failed st rest s t (returned a) r (inr f) g h = cc
  Sets-failed st rest s t q (returned b) f (inl (e, g)) h = cc
  Sets-failed st rest s t q (returned b) f (inr g) h = cc
  Sets-failed st rest s t (raised e) (raised e') f g h = h
  Sets-failed st rest s t (raised e) cancelled f g h = h
  Sets-failed st rest s t cancelled (raised e') f g h = h
  Sets-failed st rest s t cancelled cancelled f g h = h

  update-Sets :
      (st : String) (rest : List String) (w : World S.State)
      → Leaves (update_shipment_status S (str id) st) w (λ w' r. Sets st rest w.env w'.env r)
  update-Sets st rest w =
      update_rule S (str id) st (λ w' r. Sets st rest w.env w'.env r) w (λ _. (st ∷ rest, here))
        (λ pool _.
          let u = acquired S (str id) st pool w in
          let k : Keeps w.env u.env = Keeps-others w.env u.env (shared.acquire pool w.env id) in
          let x : ℕ → Reply String × S.State = λ conn. S.execute_update conn (str id) st u.env in
          let law : (conn : ℕ) → Sets st rest w.env (x conn).1 (x conn).0 = λ conn.
            Sets-after st rest w.env u.env (x conn).1 (x conn).0 k (
              executed-Sets st rest u.env (x conn).1 (x conn).0 (shared.update conn id st u.env)) in
          let back : (conn : ℕ) → Keeps (x conn).1 (S.release conn (x conn).1).1 =
            λ conn. Keeps-others _ _ (shared.release conn (x conn).1 id) in
          let set : (conn : ℕ) (tag : String)
              → (x conn).0 ≡ returned tag
              → Reach O (row w.env (st ∷ rest)) (row (S.release conn (x conn).1).1 rest) =
            λ conn tag f.
              let one : Sets st rest w.env (x conn).1 (returned tag) = rw f at (law conn) in
              Reach-trans one (back conn rest) in
          let unset : (conn : ℕ) (r : Reply Bool)
              → IsFailure (x conn).0
              → IsFailure r
              → Sets st rest w.env (S.release conn (x conn).1).1 r =
            λ conn r f g.
              Sets-then st rest w.env _ _ r (Sets-failed st rest w.env _ _ r f g (law conn))
                (back conn) in
          record {
            refused = λ err. (st ∷ rest, k (st ∷ rest));
            stopped = (st ∷ rest, k (st ∷ rest));
            done = λ conn tag f. set conn tag f;
            late = λ conn tag err f. (rest, set conn tag f);
            late_stop = λ conn tag f. (rest, set conn tag f);
            failed = λ conn err f. unset conn (raised err) f (inl (err, refl));
            failed_stop = λ conn f. unset conn cancelled f (inr refl);
          })

  -- A step of the loop: the pause, the update and the metrics.
  pub advance-Sets :
      (st : String) (rest : List String) (w : World S.State)
      → Leaves (advance S cfg (str id) st) w (λ w' r. Sets st rest w.env w'.env r)
  unfolding advance
  advance-Sets st rest w =
      let p = pause-Quiet w in
      let u = (pause S cfg w).1 in
      let q = Sets-after st rest w.env u.env _ _ p (update-Sets st rest u) in
      bind_rule (λ w' r. Sets st rest w.env w'.env r) (pause S cfg) _ w
        (λ a e.
          bind_rule (λ w' r. Sets st rest w.env w'.env r) (update_shipment_status S (str id) st) _ u
            (λ b f. rw f at q) (λ err f. rw f at q) (λ f. rw f at q))
        (λ err e. (st ∷ rest, p (st ∷ rest))) (λ e. (st ∷ rest, p (st ∷ rest)))

  update-other :
      (v : Value) (st : String) (w : World S.State)
      → v ≢ str id
      → Leaves (update_shipment_status S v st) w (Quiet w)
  update-other v st w other =
      update_rule S v st (Quiet w) w (λ _. Keeps-refl w.env)
        (λ pool _.
          let u = acquired S v st pool w in
          let k : Keeps w.env u.env = Keeps-others w.env u.env (shared.acquire pool w.env id) in
          let all : (conn : ℕ)
              → Keeps w.env (S.release conn (S.execute_update conn v st u.env).1).1 =
            λ conn. Keeps-trans _ _ _ k (
              Keeps-trans _ _ _ (Keeps-others u.env _ (shared.other_row conn v st u.env id other))
                (Keeps-others _ _ (shared.release conn (S.execute_update conn v st u.env).1 id))) in
          record {
            refused = λ err. k;
            stopped = k;
            done = λ conn tag f. all conn;
            late = λ conn tag err f. all conn;
            late_stop = λ conn tag f. all conn;
            failed = λ conn err f. all conn;
            failed_stop = λ conn f. all conn;
          })

  pub advance-other :
      (v : Value) (other : v ≢ str id) (st : String) (w : World S.State)
      → Leaves (advance S cfg v st) w (Quiet w)
  unfolding advance
  advance-other v other st w =
      let p = pause-Quiet w in
      let u = (pause S cfg w).1 in
      let q = update-other v st u other in
      bind_rule (Quiet w) (pause S cfg) _ w
        (λ a e.
          bind_rule (Quiet w) (update_shipment_status S v st) _ u (λ b f. Keeps-trans _ _ _ p q)
            (λ err f. Keeps-trans _ _ _ p q) (λ f. Keeps-trans _ _ _ p q))
        (λ err e. p) (λ e. p)
