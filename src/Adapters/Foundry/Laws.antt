-- ===== src/Adapters/Foundry/Laws.antt =====
-- What the threads of src/saas_platform/adapters/foundry.py rely on.
use hosted_agents_saa_s_plat.Prelude.{
  string_eq, ℤ, String, Bool, true, false, ◌&&◌, ◌||◌, not, ◌≡◌, ◌≢◌, Option, none, some, ◌==◌,
}
use hosted_agents_saa_s_plat.Domain.Action.{Action, ok, err, Raised}
use hosted_agents_saa_s_plat.Adapters.Foundry.{AgentsClient}

-- the thread that comes back from a creation, if it has an id
abbrev pub created_thread : Option String → String → Bool
created_thread none t = false
created_thread (some i) t = not (i == "") && i == t

-- What the gateway relies on. A thread that comes back with an id is new and open. A deletion that
-- succeeds closes its thread; nothing is known of the thread where it raises. A creation that raises
-- may have opened threads, and closes none. No other call opens or closes a thread.
pub record ThreadLaws {C : Type 0} (agents : AgentsClient C) (connect : Action C Bool)
    (is_open : C → String → Bool) : Type 0 where
  pub opened :
      (tenant_id agent_id : String) (c : C) (t : String) (r : Option String)
      → (agents.create_thread tenant_id agent_id c).0 ≡ ok r
      → is_open (agents.create_thread tenant_id agent_id c).1 t
        ≡ (is_open c t || created_thread r t)
  pub is_new :
      (tenant_id agent_id : String) (c : C) (i : String)
      → (agents.create_thread tenant_id agent_id c).0 ≡ ok (some i)
      → i ≢ ""
      → is_open c i ≡ false
  pub failed_create :
      (tenant_id agent_id : String) (c : C) (t : String) (e : Raised)
      → (agents.create_thread tenant_id agent_id c).0 ≡ err e
      → is_open c t ≡ true
      → is_open (agents.create_thread tenant_id agent_id c).1 t ≡ true
  pub message_keeps :
      (i content tenant_id agent_id : String) (c : C) (t : String)
      → is_open (agents.create_message i content tenant_id agent_id c).1 t ≡ is_open c t
  pub run_keeps :
      (i agent_id : String) (interval : ℤ) (tenant_id : String) (c : C) (t : String)
      → is_open (agents.create_and_process i agent_id interval tenant_id c).1 t ≡ is_open c t
  pub text_keeps :
      (i : String) (c : C) (t : String) → is_open (agents.last_message_text i c).1 t ≡ is_open c t
  pub connect_keeps : (c : C) (t : String) → is_open (connect c).1 t ≡ is_open c t
  pub closed :
      (i : String) (c : C)
      → (agents.delete_thread i c).0 ≡ ok tt
      → is_open (agents.delete_thread i c).1 i ≡ false
  pub others_kept :
      (i : String) (c : C) (t : String)
      → (i == t) ≡ false
      → is_open (agents.delete_thread i c).1 t ≡ is_open c t
