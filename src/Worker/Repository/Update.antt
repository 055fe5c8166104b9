-- ===== src/Worker/Repository/Update.antt =====
-- What `update_shipment_status` does to the table and reports of it.
use kube_delivery_platform.Prelude.{
  ℕ, String, ◌≡◌, refl, ◌≢◌, inl, inr, Bool, true, false, Option, none, some, [], ◌∷◌, ◌++◌, ◌==◌,
  if◌then◌else◌, ap, ◌∙◌, ◌⊎◌,
}
use kube_delivery_platform.Python.Value.{Value, str}
use kube_delivery_platform.Python.Exec.{Reply, returned, raised, cancelled, runtime_error}
use kube_delivery_platform.Python.Exec.Rules.{Leaves}
use kube_delivery_platform.Worker.Metrics.{inc_updates}
use kube_delivery_platform.Worker.Services.{Services}
use kube_delivery_platform.Worker.World.{World, update}
use kube_delivery_platform.Worker.Database.{IsPostgres, IsQuiet, set_status, changes}
use kube_delivery_platform.Worker.Repository.{update_shipment_status}
use kube_delivery_platform.Worker.Repository.Rules.{acquired, sent, released, update_rule}

-- The tag is compared with "UPDATE 1".
tag-changes : (b : Bool) → ((if b then "UPDATE 1" else "UPDATE 0") == "UPDATE 1") ≡ b
tag-changes true = refl
tag-changes false = refl

module _ (S : Services) (status_of : S.State → String → Option String) (pg : IsPostgres S status_of)
    (quiet : IsQuiet S status_of) where
  -- What an update of `id` that returned comes to.
  abbrev Sets : String → String → World S.State → World S.State → Reply Bool → Type 0
  Sets id st w w' (returned b) =
      (b ≡ changes st (status_of w.env id))
      × (status_of w'.env id ≡ set_status st (status_of w.env id))
  Sets id st w w' _ = Unit

  done-Sets :
      (id st : String) (pool conn : ℕ) (tag : String) (w : World S.State)
      → let u = acquired S (str id) st pool w in
        (S.execute_update conn (str id) st u.env).0 ≡ returned tag
        → Sets id st w
            (released S (str id) st conn (sent S (str id) st conn u))
            (returned (tag == "UPDATE 1"))
  done-Sets id st pool conn tag w e =
      let u = acquired S (str id) st pool w in
      let (tag_eq, set) = pg.executed conn id st u.env tag e in
      let same = quiet.acquire pool w.env id in
      (
        ap (λ (t : String). t == "UPDATE 1") tag_eq
            ∙ tag-changes (changes st (status_of u.env id))
            ∙ ap (changes st) same,
        quiet.release conn (S.execute_update conn (str id) st u.env).1 id
            ∙ set
            ∙ ap (set_status st) same,
      )

  -- An update that returns has given an existing shipment the new status, and returns true exactly
  -- if that changed it. A shipment that does not exist stays so, and false is returned.
  pub update_shipment_status-effect :
      (id st : String) (w : World S.State) (b : Bool)
      → (update_shipment_status S (str id) st w).0 ≡ returned b
      → (b ≡ changes st (status_of w.env id))
        × (status_of (update_shipment_status S (str id) st w).1.env id
            ≡ set_status st (status_of w.env id))
  update_shipment_status-effect id st w b h =
      let t =
        update_rule S (str id) st (Sets id st w) w (λ _. tt)
          (λ pool e. record {
            refused = λ err. tt;
            stopped = tt;
            done = λ conn tag f. done-Sets id st pool conn tag w f;
            late = λ conn tag err f. tt;
            late_stop = λ conn tag f. tt;
            failed = λ conn err f. tt;
            failed_stop = λ conn f. tt;
          }) in
      let t' : Sets id st w (update_shipment_status S (str id) st w).1 (returned b) = rw h at t in
      t'

  abbrev Keeps : String → World S.State → World S.State → Reply Bool → Type 0
  Keeps j w w' r = status_of w'.env j ≡ status_of w.env j

  -- However an update ends, it leaves every other shipment alone.
  pub update_shipment_status-frame :
      (v : Value) (st : String) (w : World S.State) (j : String)
      → v ≢ str j
      → status_of (update_shipment_status S v st w).1.env j ≡ status_of w.env j
  update_shipment_status-frame v st w j other =
      update_rule S v st (Keeps j w) w (λ _. refl)
        (λ pool e.
          let u = acquired S v st pool w in
          let before = quiet.acquire pool w.env j in
          let all : (conn : ℕ)
              → status_of (released S v st conn (sent S v st conn u)).env j ≡ status_of w.env j =
            λ conn.
              quiet.release conn (S.execute_update conn v st u.env).1 j
              ∙ pg.touches_one conn v st u.env j other
              ∙ before in
          record {
            refused = λ err. before;
            stopped = before;
            done = λ conn tag f. all conn;
            late = λ conn tag err f. all conn;
            late_stop = λ conn tag f. all conn;
            failed = λ conn err f. all conn;
            failed_stop = λ conn f. all conn;
          })

-- What an update counts and asks for, by whether there is a pool and how it ended.
abbrev pub Counted :
    {State : Type 0} → Option ℕ → Value → String → World State → World State → Reply Bool → Type 0
Counted none v st w w' r =
    (r ≡ raised (runtime_error "Database connection pool not initialized")) × (w' ≡ w)
Counted (some pool) v st w w' (returned b) =
    (w'.calls ≡ w.calls ++ (update v st ∷ [])) × (w'.metrics ≡ inc_updates w.metrics st "success")
Counted (some pool) v st w w' (raised e) =
    ((w'.metrics ≡ inc_updates w.metrics st "error")
      × ((w'.calls ≡ w.calls) ⊎ (w'.calls ≡ w.calls ++ (update v st ∷ []))))
    ⊎ ((w'.metrics ≡ inc_updates (inc_updates w.metrics st "success") st "error")
        × (w'.calls ≡ w.calls ++ (update v st ∷ [])))
Counted (some pool) v st w w' cancelled =
    ((w'.metrics ≡ w.metrics) × ((w'.calls ≡ w.calls) ⊎ (w'.calls ≡ w.calls ++ (update v st ∷ []))))
    ⊎ ((w'.metrics ≡ inc_updates w.metrics st "success")
        × (w'.calls ≡ w.calls ++ (update v st ∷ [])))

-- An update without a pool raises, sends nothing and counts nothing. With a pool it sends at most one
-- statement. If it returns, it sent the statement and counted one success. If it raises, it counted
-- one error, after a success only if the statement was sent. If it was cancelled, it counted no
-- error, and a success only if the statement was sent.
pub update_shipment_status-Counted :
    (S : Services) (v : Value) (st : String) (w : World S.State)
    → Leaves (update_shipment_status S v st) w (Counted w.repo.pool v st w)
update_shipment_status-Counted S v st w =
    update_rule S v st (Counted w.repo.pool v st w) w (λ e. rw e (refl, refl))
      (λ pool e. record {
        refused = λ err. rw e (inl (refl, inl refl));
        stopped = rw e (inl (refl, inl refl));
        done = λ conn tag f. rw e (refl, refl);
        late = λ conn tag err f. rw e (inr (refl, refl));
        late_stop = λ conn tag f. rw e (inr (refl, refl));
        failed = λ conn err f. rw e (inl (refl, inr refl));
        failed_stop = λ conn f. rw e (inl (refl, inr refl));
      })
