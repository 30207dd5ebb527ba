-- ===== src/Controller/Kube/Writes.antt =====
-- What a reconciler changes in the cluster: the runs that it creates and deletes. Status patches
-- are not counted.
use kontext.Prelude.{
  ◌⊎◌, inl, inr, ◌≡◌, refl, ◌∙◌, Bool, true, false, List, [], ◌∷◌, Text, if◌then◌else◌,
}
use kontext.Api.{Agent, AgentStatus, AgentRun}
use kontext.Controller.Kube.{
  Environment, create, delete, History, Action, Outcome, done, failed, stuck, spin, ControllerError,
  pure, raise, carry_on, ◌>>=◌, ◌>>◌, clock, list_runs, get_run, patch_agent_status,
}

pub data Write : Type 0 where
  creates deletes : AgentRun → Write

-- The calls of Create and Delete in a history, the latest first, whatever the answers were.
unfoldable pub writes : History → List Write
writes [] = []
writes (create run r ∷ h) = creates run ∷ writes h
writes (delete run r ∷ h) = deletes run ∷ writes h
writes (e ∷ h) = writes h

-- What a reconciliation may change: nothing, or one run of `P` created.
abbrev pub Changes : List Write → (AgentRun → Type 0) → List Write → Type 0
Changes ws P ws' = (ws' ≡ ws) ⊎ ((run : AgentRun) × (ws' ≡ creates run ∷ ws) × P run)

pub Changes-more :
    (ws ws' : List Write) (P Q : AgentRun → Type 0)
    → ((run : AgentRun) → P run → Q run)
    → Changes ws P ws'
    → Changes ws Q ws'
Changes-more ws ws' P Q f (inl e) = inl e
Changes-more ws ws' P Q f (inr (run, e, p)) = inr (run, e, f run p)

-- An action that neither creates nor deletes, however it ends.
pub record Quiet {A : Type 0} (m : Action A) : Type 0 where
  pub at : (h : History) → writes (m h).1 ≡ writes h

module _ {A : Type 0} where
  pub Quiet-pure : (a : A) → Quiet (pure a)
  unfolding pure
  Quiet-pure a = record { at = λ h. refl }

  pub Quiet-raise : (e : ControllerError) → Quiet (raise {A = A} e)
  unfolding raise
  Quiet-raise e = record { at = λ h. refl }

  pub Quiet-spin : Quiet (spin {A = A})
  unfolding spin
  Quiet-spin = record { at = λ h. refl }

  pub Quiet-if : (b : Bool) (m n : Action A) → Quiet m → Quiet n → Quiet (if b then m else n)
  Quiet-if true m n qm qn = qm
  Quiet-if false m n qm qn = qn

module _ {A : Type 0} where
  -- A guard that ends quietly.
  pub Changes-unless :
      (P : AgentRun → Type 0) (b : Bool) (m n : Action A) (h : History)
      → Quiet m
      → (b ≡ false → Changes (writes h) P (writes (n h).1))
      → Changes (writes h) P (writes ((if b then m else n) h).1)
  Changes-unless P true m n h q f = inl (q.at h)
  Changes-unless P false m n h q f = f refl

module _ {A B : Type 0} where
  writes-carry_on :
      (f : A → Action B) (o : Outcome A) (h : History)
      → ((a : A) → Quiet (f a))
      → writes (carry_on f o h).1 ≡ writes h
  writes-carry_on f (done a) h q = (q a).at h
  writes-carry_on f (failed e) h q = refl
  writes-carry_on f stuck h q = refl

  pub Quiet-bind :
      (m : Action A) (f : A → Action B) → Quiet m → ((a : A) → Quiet (f a)) → Quiet (m >>= f)
  unfolding ◌>>=◌
  Quiet-bind m f qm qf = record { at = λ h. writes-carry_on f (m h).0 (m h).1 qf ∙ qm.at h }

  -- Behind a quiet action that succeeds, the writes are those of what follows.
  pub writes-after :
      (m : Action A) (f : A → Action B) (h : History) (a : A)
      → (m h).0 ≡ done a
      → (m >>= f) h ≡ f a (m h).1
  unfolding ◌>>=◌
  writes-after m f h a e = rw e

module _ {B : Type 0} where
  pub Quiet-then : (m : Action (Unit {0})) (k : Action B) → Quiet m → Quiet k → Quiet (m >> k)
  Quiet-then m k qm qk = Quiet-bind m (λ _. k) qm (λ _. qk)

module _ (env : Environment) where
  pub Quiet-clock : Quiet (clock env)
  unfolding clock writes
  Quiet-clock = record { at = λ h. refl }

  pub Quiet-list_runs : (ns uid : Text) → Quiet (list_runs env ns uid)
  unfolding list_runs writes
  Quiet-list_runs ns uid = record { at = λ h. refl }

  pub Quiet-get_run : (ns name : Text) → Quiet (get_run env ns name)
  unfolding get_run writes
  Quiet-get_run ns name = record { at = λ h. refl }

  pub Quiet-patch_agent_status :
      (agent : Agent) (next : AgentStatus) → Quiet (patch_agent_status env agent next)
  unfolding patch_agent_status writes
  Quiet-patch_agent_status agent next = record { at = λ h. refl }

pub ruleset quiet_rules = (
  Quiet-pure, Quiet-raise, Quiet-spin, Quiet-if, Quiet-bind, Quiet-then, Quiet-clock,
  Quiet-list_runs, Quiet-get_run, Quiet-patch_agent_status,
)
