-- ===== src/Worker/Consumer/Calls.antt =====
-- The requests that the loop over `STATUS_LIFECYCLE` makes, with what they do to the services.
use kube_delivery_platform.Prelude.{
  ℕ, String, ◌≡◌, refl, ◌≢◌, false, true, ◌⊎◌, inl, inr, List, [], ◌∷◌, ◌++◌, map, append-nil,
  append_assoc, arith, ◌∙◌, ap, sym,
}
use kube_delivery_platform.Python.Value.{Value}
use kube_delivery_platform.Python.Exec.{Reply, returned, raised, cancelled}
use kube_delivery_platform.Python.Exec.Rules.{Reply-cases, Leaves, if-Leaves, bind_rule}
use kube_delivery_platform.Worker.Services.{Services, Config}
use kube_delivery_platform.Worker.World.{World, Call, update}
use kube_delivery_platform.Worker.Repository.{update_shipment_status}
use kube_delivery_platform.Worker.Repository.Rules.{update_rule}
use kube_delivery_platform.Worker.Consumer.{pause, advance, progress, complete}

-- A relation between the services before and after, and the statuses asked for in between, that
-- the steps of the loop build up and that the acknowledgement keeps.
pub record Effect (S : Services) (cfg : Config S) (v : Value) : Type 1 where
  pub Relates : S.State → List String → S.State → Type 0
  pub start : (s : S.State) → Relates s [] s
  pub step :
      (st : String) (rest : List String) (w : World S.State) (s : S.State)
      → (advance S cfg v st w).0 ≡ returned tt
      → Relates (advance S cfg v st w).1.env rest s
      → Relates w.env (st ∷ rest) s
  pub finish :
      (id : ℕ) (t : Value) (done : List String) (s : S.State) (w : World S.State)
      → Relates s done w.env
      → Relates s done (complete S cfg id t w).1.env

-- The effect that says nothing.
abbrev pub no_effect : (S : Services) (cfg : Config S) (v : Value) → Effect S cfg v
no_effect S cfg v = record {
  Relates = λ _ _ _. Unit;
  start = λ _. tt;
  step = λ _ _ _ _ _ _. tt;
  finish = λ _ _ _ _ _ _. tt;
}

module _ (S : Services) (cfg : Config S) (v : Value) (st : String) where
  -- The update was requested, or there was an error before it.
  abbrev Requests : {A : Type 0} → World S.State → World S.State → Reply A → Type 0
  Requests w w' (returned a) = w'.calls ≡ w.calls ++ (update v st ∷ [])
  Requests w w' _ = (w'.calls ≡ w.calls ++ (update v st ∷ [])) ⊎ (w'.calls ≡ w.calls)

  update-Requests : (w : World S.State) → Leaves (update_shipment_status S v st) w (Requests w)
  update-Requests w =
      update_rule S v st (Requests w) w (λ _. inr refl)
        (λ pool _. record {
          refused = λ err. inr refl;
          stopped = inr refl;
          done = λ conn tag f. refl;
          late = λ conn tag err f. inl refl;
          late_stop = λ conn tag f. inl refl;
          failed = λ conn err f. inl refl;
          failed_stop = λ conn f. inl refl;
        })

  calls-pause : (w : World S.State) → (pause S cfg w).1.calls ≡ w.calls
  unfolding pause
  calls-pause w = ground arith

  advance-Requests : (w : World S.State) → Leaves (advance S cfg v st) w (Requests w)
  unfolding advance
  advance-Requests w =
      let same = calls-pause w in
      bind_rule (Requests w) (pause S cfg) _ w
        (λ a e.
          let asked = update-Requests (pause S cfg w).1 in
          bind_rule (Requests w) (update_shipment_status S v st) _ (pause S cfg w).1
            (λ b f. rw same at (rw f at asked)) (λ err f. rw same at (rw f at asked))
            (λ f. rw same at (rw f at asked)))
        (λ err e. inr same) (λ e. inr same)

  pub calls-advance :
      (w : World S.State)
      → ((advance S cfg v st w).1.calls ≡ w.calls ++ (update v st ∷ []))
        ⊎ (((advance S cfg v st w).1.calls ≡ w.calls) × ((advance S cfg v st w).0 ≢ returned tt))
  calls-advance w =
      let asked = advance-Requests w in
      elim (Reply-cases (advance S cfg v st w).0) [
        | inl (a, e) ↦ inl (rw e at asked)
        | inr (inl (err, e)) ↦
            let bad : Reply Unit = raised err in
            let t : Requests w (advance S cfg v st w).1 bad = rw e at asked in
            elim t [ inl c ↦ inl c | inr c ↦ inr (c, λ h. cc) ]
        | inr (inr e) ↦
            let bad : Reply Unit = cancelled in
            let t : Requests w (advance S cfg v st w).1 bad = rw e at asked in
            elim t [ inl c ↦ inl c | inr c ↦ inr (c, λ h. cc) ]
      ]

module _ (S : Services) (cfg : Config S) (v : Value) (E : Effect S cfg v) where
  -- From `w` to `w'` the loop asked for the statuses `done`, in order, and left `rest` of `todo`.
  pub record IsProgress (todo : List String) (w w' : World S.State) (r : Reply Unit) : Type 0 where
    pub done : List String
    pub rest : List String
    pub parts : done ++ rest ≡ todo
    pub calls : w'.calls ≡ w.calls ++ map (update v) done
    pub all : r ≡ returned tt → w'.consumer.running ≡ true → rest ≡ []
    pub effect : r ≡ returned tt → E.Relates w.env done w'.env

module _ (S : Services) (cfg : Config S) (v : Value) (E : Effect S cfg v) where
  -- The loop ended before its next request, by a `break` or by an error.
  ended :
      (todo : List String) (w w' : World S.State) (r : Reply Unit)
      → w'.calls ≡ w.calls
      → (r ≢ returned tt) ⊎ ((w'.consumer.running ≡ false) × (w'.env ≡ w.env))
      → IsProgress S cfg v E todo w w' r
  ended todo w w' r same why = record {
    done = [];
    rest = todo;
    parts = refl;
    calls = same ∙ sym (append-nil w.calls);
    all = λ e f. ground arith;
    effect = λ e. elim why [ inl bad ↦ absurd (bad e) | inr q ↦ rw q.1 (E.start w.env) ];
  }

  module _ (st : String) (todo : List String) (w : World S.State) where
    -- The status `st` was asked for, and the loop went on or ended there.
    went_on :
        (w' : World S.State) (r : Reply Unit)
        → (advance S cfg v st w).1.calls ≡ w.calls ++ (update v st ∷ [])
        → (r ≡ returned tt → (advance S cfg v st w).0 ≡ returned tt)
        → IsProgress S cfg v E todo (advance S cfg v st w).1 w' r
        → IsProgress S cfg v E (st ∷ todo) w w' r
    went_on w' r asked ok p = record {
      done = st ∷ p.done;
      rest = p.rest;
      parts = ap (λ (l : List String). st ∷ l) p.parts;
      calls =
          p.calls
          ∙ ap (λ (l : List Call). l ++ map (update v) p.done) asked
          ∙ append_assoc w.calls (update v st ∷ []) (map (update v) p.done);
      all = p.all;
      effect = λ e. E.step st p.done w w'.env (ok e) (p.effect e);
    }

    -- An error or a cancellation ends the loop, whether it came before or after the request.
    failed :
        (r : Reply Unit)
        → r ≢ returned tt
        → IsProgress S cfg v E (st ∷ todo) w (advance S cfg v st w).1 r
    failed r bad = elim (calls-advance S cfg v st w) [
      | inl asked ↦
          went_on (advance S cfg v st w).1 r asked (λ e. absurd (bad e))
            (ended todo (advance S cfg v st w).1 _ r refl (inl bad))
      | inr same ↦ ended (st ∷ todo) w _ r same.0 (inl bad)
    ]

  pub progress-IsProgress :
      (todo : List String) (w : World S.State)
      → Leaves (progress S cfg v todo) w (IsProgress S cfg v E todo w)
  unfolding progress
  progress-IsProgress [] w = record {
    done = [];
    rest = [];
    parts = refl;
    calls = sym (append-nil w.calls);
    all = λ e f. refl;
    effect = λ e. E.start w.env;
  }
  progress-IsProgress (st ∷ todo) w =
      if-Leaves (IsProgress S cfg v E (st ∷ todo) w) w.consumer.running _ _ w
        (λ _.
          bind_rule (IsProgress S cfg v E (st ∷ todo) w) (advance S cfg v st)
            (λ _. progress S cfg v todo) w
            (λ a e.
              went_on st todo w _ _ (ground (arith, calls-advance S cfg v st w)) (λ _. e)
                (progress-IsProgress todo _))
            (λ e h. failed st todo w (raised e) (λ p. cc))
            (λ h. failed st todo w cancelled (λ p. cc)))
        λ stop. ended (st ∷ todo) w w (returned tt) refl (inr (stop, refl))
