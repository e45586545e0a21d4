-- ===== src/Adapters/Foundry/Threads.antt =====
-- The threads that an execution leaves open.
use hosted_agents_saa_s_plat.Prelude.{
  string_eq, ℤ, pos, max_ℤ, String, Bool, true, false, ◌||◌, ◌≡◌, ◌≢◌, refl, ap, sym, ◌∙◌, ◌⊎◌,
  string_eq_iff, Option, none, some, ◌==◌, arith, Bool-cases, inl, inr,
}
use mathlib.Core.Path.{subst}
use hosted_agents_saa_s_plat.Text.{strip}
use hosted_agents_saa_s_plat.Config.{Settings}
use hosted_agents_saa_s_plat.Domain.Action.{
  Action, Outcome, ok, err, continue, ◌>>=◌, ◌>>◌, Raised, lift, raise_if,
}
use hosted_agents_saa_s_plat.Domain.Action.Keeps.{continue_keeps}
use hosted_agents_saa_s_plat.Adapters.Foundry.{
  AgentsClient, GatewayState, FoundryAuthPolicy, or_empty, run_in_thread, after_run, check_run,
  read_answer, in_thread, converse, agents_client, connect_if, exposed, in_service, execute,
  answer_text,
}
use hosted_agents_saa_s_plat.Adapters.Foundry.Laws.{created_thread, ThreadLaws}

named_id : (i : String) → (i == "") ≡ false → i ≢ ""
named_id i h e = let empty : (i == "") ≡ true = (string_eq_iff i "").1 e in absurd (cc)

module _ {C : Type 0} (agents : AgentsClient C) (connect : Action C Bool)
    (is_open : C → String → Bool) (laws : ThreadLaws agents connect is_open) (t : String) where
  abbrev part : C → Bool
  part c = is_open c t

  -- a method that opens and closes no thread
  abbrev IsQuiet : {A : Type 0} → Action C A → Type 0
  IsQuiet m = (c : C) → is_open (m c).1 t ≡ is_open c t

  bind-IsQuiet :
      {A B : Type 0} (m : Action C A) (f : A → Action C B)
      → IsQuiet m
      → ((a : A) → IsQuiet (f a))
      → IsQuiet (m >>= f)
  bind-IsQuiet m f first rest c =
      continue_keeps part (m c).1 (is_open c t) (first c) (m c).0 f (λ a. rest a (m c).1 ∙ first c)

  raise_if-IsQuiet : (b : Bool) (e : Raised) → IsQuiet (raise_if b e)
  raise_if-IsQuiet true e c = refl
  raise_if-IsQuiet false e c = refl

  run_in_thread-IsQuiet :
      (interval : ℤ) (tenant_id agent_id message i : String)
      → IsQuiet (run_in_thread agents interval tenant_id agent_id message i)
  run_in_thread-IsQuiet interval tenant_id agent_id message i =
      bind-IsQuiet (agents.create_message i message tenant_id agent_id)
        (λ _.
          agents.create_and_process i agent_id (max_ℤ interval (pos 1)) tenant_id
          >>= after_run agents interval tenant_id agent_id message i)
        (λ c. laws.message_keeps i message tenant_id agent_id c t)
        (λ _.
          bind-IsQuiet (agents.create_and_process i agent_id (max_ℤ interval (pos 1)) tenant_id)
            (after_run agents interval tenant_id agent_id message i)
            (λ c. laws.run_keeps i agent_id (max_ℤ interval (pos 1)) tenant_id c t)
            (λ run.
              bind-IsQuiet (check_run agents interval tenant_id agent_id message run)
                (λ _. read_answer agents interval tenant_id agent_id message i)
                (raise_if-IsQuiet _ _)
                (λ _.
                  bind-IsQuiet (agents.last_message_text i)
                    (λ m. lift (answer_text agents interval tenant_id agent_id message m))
                    (λ c. laws.text_keeps i c t) (λ _ c. refl))))

  module _ (tenant_id agent_id : String) where
    -- The thread was not open before, and the state is what a call left that raised: a deletion of
    -- this thread or a creation.
    abbrev pub LeftOpen : C → C → Type 0
    LeftOpen c c' =
        (is_open c t ≡ false)
        × (((c1 : C) × (e : Raised) × (agents.delete_thread t c1 ≡ (err e, c')))
            ⊎ ((c1 : C) × (e : Raised) × (agents.create_thread tenant_id agent_id c1
                  ≡ (err e, c'))))

    abbrev pub Settled : C → C → Type 0
    Settled c c' = (is_open c' t ≡ is_open c t) ⊎ LeftOpen c c'

    Settled-from : (c c1 c' : C) → is_open c1 t ≡ is_open c t → Settled c1 c' → Settled c c'
    Settled-from c c1 c' same (inl e) = inl (e ∙ same)
    Settled-from c c1 c' same (inr (closed, why)) = inr (sym same ∙ closed, why)

    -- after the deletion of the thread that the execution created
    deleted :
        (i : String) (c c2 : C) (r : Outcome (Unit {0})) (c' : C)
        → agents.delete_thread i c2 ≡ (r, c')
        → is_open c i ≡ false
        → is_open c2 t ≡ (is_open c t || i == t)
        → Settled c c'
    deleted i c c2 r c' gone new h = elim (Bool-cases (i == t)) [
      | inr other ↦ inl (
          subst (λ x. is_open x.1 t ≡ is_open c t) gone
            (laws.others_kept i c2 t other ∙ rw h (ground arith)))
      | inl same ↦ at_thread ((string_eq_iff i t).0 same) r gone
    ]
      where
        at_thread :
            i ≡ t → (r : Outcome (Unit {0})) → agents.delete_thread i c2 ≡ (r, c') → Settled c c'
        at_thread here (ok u) gone =
            let shut : is_open c' i ≡ false =
              subst (λ x. is_open x.1 i ≡ false) gone (laws.closed i c2 (ap (λ x. x.0) gone)) in
            inl (subst (λ j. is_open c' j ≡ is_open c j) here (shut ∙ sym new))
        at_thread here (err e) gone = inr (
          subst (λ j. is_open c j ≡ false) here new,
          inl (c2, e, subst (λ j. agents.delete_thread j c2 ≡ (err e, c')) here gone),
        )

    opened_at :
        (r : Option String) (c c1 : C)
        → agents.create_thread tenant_id agent_id c ≡ (ok r, c1)
        → is_open c1 t ≡ (is_open c t || created_thread r t)
    opened_at r c c1 made =
        subst (λ x. is_open x.1 t ≡ (is_open c t || created_thread r t)) made
          (laws.opened tenant_id agent_id c t r (ap (λ x. x.0) made))

    -- after a thread was created and used
    used :
        (interval : ℤ) (message : String) (r : Outcome (Option String)) (c c1 : C)
        → agents.create_thread tenant_id agent_id c ≡ (r, c1)
        → Settled c
            (continue r
              (λ created. in_thread agents interval tenant_id agent_id message (or_empty created))
              c1).1
    used interval message (err e) c c1 made = elim (Bool-cases (is_open c t)) [
      | inl before ↦ inl (
          subst (λ x. is_open x.1 t ≡ true) made
            (laws.failed_create tenant_id agent_id c t e (ap (λ x. x.0) made) before)
          ∙ sym before)
      | inr shut ↦ inr (shut, inr (c, e, made))
    ]
    used interval message (ok none) c c1 made = inl (opened_at none c c1 made ∙ ground arith)
    used interval message (ok (some i)) c c1 made = elim (Bool-cases (i == "")) [
      | inl empty ↦ rw empty (inl (opened_at (some i) c c1 made ∙ ground (arith, empty)))
      | inr named ↦
          let c2 = (run_in_thread agents interval tenant_id agent_id message i c1).1 in
          rw named (
            deleted i c c2 (agents.delete_thread i c2).0 (agents.delete_thread i c2).1 refl
              (laws.is_new tenant_id agent_id c i (ap (λ x. x.0) made) (named_id i named))
              (run_in_thread-IsQuiet interval tenant_id agent_id message i c1
                ∙ opened_at (some i) c c1 made
                ∙ ground (arith, named)))
    ]

    converse-Settled :
        (interval : ℤ) (message : String) (c : C)
        → Settled c (converse agents interval tenant_id agent_id message c).1
    unfolding converse
    converse-Settled interval message c =
        let r = agents.create_thread tenant_id agent_id c in used interval message r.0 c r.1 refl

  abbrev service_part : GatewayState C → Bool
  service_part s = is_open s.service t

  connect_keeps_threads :
      (settings : Settings) (policy : FoundryAuthPolicy) (known : Option Bool) (s : GatewayState C)
      → service_part (connect_if agents connect settings policy known s).1 ≡ service_part s
  connect_keeps_threads settings policy none s =
      let (r, c) = connect s.service in
      let s1 : GatewayState C = record s { service = c } in
      continue_keeps service_part s1 (service_part s) (laws.connect_keeps s.service t) r
        (exposed agents connect settings policy)
        (λ exposes. exposed_keeps exposes s1 ∙ laws.connect_keeps s.service t)
    where
      exposed_keeps :
          (exposes : Bool) (s : GatewayState C)
          → service_part (exposed agents connect settings policy exposes s).1 ≡ service_part s
      exposed_keeps true s = refl
      exposed_keeps false s = refl
  connect_keeps_threads settings policy (some true) s = refl
  connect_keeps_threads settings policy (some false) s = refl

  module _ (settings : Settings) (policy : FoundryAuthPolicy)
      (tenant_id agent_id message : String) where
    abbrev conversation : Action (GatewayState C) String
    conversation =
        in_service agents connect settings policy
          (converse agents settings.foundry_run_poll_interval_seconds tenant_id agent_id message)

    connected-Settled :
        (s s1 : GatewayState C) (r : Outcome (Unit {0}))
        → service_part s1 ≡ service_part s
        → Settled tenant_id agent_id s.service (continue r (λ _. conversation) s1).1.service
    connected-Settled s s1 (err e) same = inl same
    connected-Settled s s1 (ok u) same =
        Settled-from tenant_id agent_id s.service s1.service _ same (
          converse-Settled tenant_id agent_id settings.foundry_run_poll_interval_seconds message
            s1.service)

    guarded-Settled :
        (refused : Bool) (e : Raised) (m : Action (GatewayState C) String) (s : GatewayState C)
        → Settled tenant_id agent_id s.service (m s).1.service
        → Settled tenant_id agent_id s.service ((raise_if refused e >> m) s).1.service
    guarded-Settled true e m s h = inl refl
    guarded-Settled false e m s h = h

    -- An execution leaves every thread as it was, open or not, whatever the run and the reading of
    -- the answer do, unless that thread was not open before and the execution ended in the state
    -- that a deletion of this thread or a creation left when it raised.
    pub execute_closes :
        (s : GatewayState C)
        → Settled tenant_id agent_id s.service
            (execute agents connect settings policy tenant_id agent_id message s).1.service
    unfolding execute agents_client
    execute_closes s = elim (Bool-cases (strip settings.azure_ai_project_endpoint == "")) [
      | inl unset ↦ rw unset (inl refl)
      | inr set ↦ rw set (
          guarded-Settled _ _ (agents_client agents connect settings policy >> conversation) s (
            let a = agents_client agents connect settings policy s in
            connected-Settled s a.1 a.0 (connect_keeps_threads settings policy s.project_client s)))
    ]
