-- ===== src/Client/Finishes.antt =====
-- That a method of src/mqclient.cpp returns, or that it returns or throws, and what it then delivers.
use ibmmq_metrics_exporter.Base.{◌≡◌, sym, Bool, true, false, if◌then◌else◌}
use mathlib.Core.Path.{subst}
use ibmmq_metrics_exporter.Client.State.{
  Outcome, returned, thrown, undefined, Run, pure, attempt, ◌>>=◌,
}
use ibmmq_metrics_exporter.Client.Ends.{Ends}

module _ {S : Type 0} where
  -- The method returns, whatever it does, and never throws or reads outside a buffer.
  abbrev pub Finishes : {A : Type 0} → Outcome A × S → Type 0
  Finishes (returned a, σ) = Unit {0}
  Finishes (thrown x, σ) = ⊥
  Finishes (undefined x, σ) = ⊥

  -- It returns, and the condition holds of what it returns.
  abbrev pub Delivers : {A : Type 0} → (A → S → Type 0) → Outcome A × S → Type 0
  Delivers q (returned a, σ) = q a σ
  Delivers q (thrown x, σ) = ⊥
  Delivers q (undefined x, σ) = ⊥

  -- The method returns or throws.
  abbrev pub Ended : {A : Type 0} → Outcome A × S → Type 0
  Ended (returned a, σ) = Unit {0}
  Ended (thrown x, σ) = Unit {0}
  Ended (undefined x, σ) = ⊥

  Ended-then :
      {A B : Type 0} (f : A → Run S B) (p : Outcome A × S)
      → Ended p
      → ((a : A) (σ : S) → Ended (f a σ))
      → Ended (((λ σ. p) >>= f) p.1)
  Ended-then f (returned a, σ) h k = k a σ
  Ended-then f (thrown x, σ) h k = h
  Ended-then f (undefined x, σ) h k = h

  pub Ended-bind :
      {A B : Type 0} (m : Run S A) (f : A → Run S B) (σ : S)
      → Ended (m σ)
      → ((a : A) (σ' : S) → Ended (f a σ'))
      → Ended ((m >>= f) σ)
  Ended-bind m f σ h k = Ended-then f (m σ) h k

  pub Ended-if :
      {A : Type 0} (b : Bool) (m n : Run S A) (σ : S)
      → Ended (m σ)
      → Ended (n σ)
      → Ended ((if b then m else n) σ)
  Ended-if true m n σ h k = h
  Ended-if false m n σ h k = k

  -- What ends is caught.
  pub Ended-attempt : {A : Type 0} (p : Outcome A × S) → Ended p → Finishes (attempt (λ σ. p) p.1)
  Ended-attempt (returned a, σ) h = tt
  Ended-attempt (thrown x, σ) h = tt
  Ended-attempt (undefined x, σ) h = h

  Finishes-then :
      {A B : Type 0} (f : A → Run S B) (p : Outcome A × S)
      → Finishes p
      → ((a : A) (σ : S) → Finishes (f a σ))
      → Finishes (((λ σ. p) >>= f) p.1)
  Finishes-then f (returned a, σ) h k = k a σ
  Finishes-then f (thrown x, σ) h k = h
  Finishes-then f (undefined x, σ) h k = h

  pub Finishes-bind :
      {A B : Type 0} (m : Run S A) (f : A → Run S B) (σ : S)
      → Finishes (m σ)
      → ((a : A) (σ' : S) → Finishes (f a σ'))
      → Finishes ((m >>= f) σ)
  Finishes-bind m f σ h k = Finishes-then f (m σ) h k

  pub Finishes-if :
      {A : Type 0} (b : Bool) (m n : Run S A) (σ : S)
      → Finishes (m σ)
      → Finishes (n σ)
      → Finishes ((if b then m else n) σ)
  Finishes-if true m n σ h k = h
  Finishes-if false m n σ h k = k

  pub Ends-Delivers :
      {A : Type 0} (q : A → S → Type 0) (e : S → Type 0) (p : Outcome A × S)
      → Ends q e p
      → Finishes p
      → Delivers q p
  Ends-Delivers q e (returned a, σ) h k = h
  Ends-Delivers q e (thrown x, σ) h k = k
  Ends-Delivers q e (undefined x, σ) h k = k

  Delivers-then :
      {A B : Type 0} (q : A → S → Type 0) (s : B → S → Type 0) (f : A → B) (p : Outcome A × S)
      → Delivers q p
      → ((a : A) (σ : S) → q a σ → s (f a) σ)
      → Delivers s (((λ σ. p) >>= λ a. pure (f a)) p.1)
  Delivers-then q s f (returned a, σ) h k = k a σ h
  Delivers-then q s f (thrown x, σ) h k = h
  Delivers-then q s f (undefined x, σ) h k = h

  pub Delivers-map :
      {A B : Type 0} (q : A → S → Type 0) (s : B → S → Type 0) (m : Run S A) (f : A → B) (σ : S)
      → Delivers q (m σ)
      → ((a : A) (σ' : S) → q a σ' → s (f a) σ')
      → Delivers s ((m >>= λ a. pure (f a)) σ)
  Delivers-map q s m f σ h k = Delivers-then q s f (m σ) h k

  -- The first part is known to come to `a` and `σ'`.
  pub Delivers-step :
      {A B : Type 0} (s : B → S → Type 0) (m : Run S A) (f : A → Run S B) (σ σ' : S) (a : A)
      → m σ ≡ (returned a, σ')
      → Delivers s (f a σ')
      → Delivers s ((m >>= f) σ)
  Delivers-step s m f σ σ' a e h = subst (λ p. Delivers s (((λ σ. p) >>= f) p.1)) (sym e) h

  pub Finishes-Ended : {A : Type 0} (p : Outcome A × S) → Finishes p → Ended p
  Finishes-Ended (returned a, σ) h = tt
  Finishes-Ended (thrown x, σ) h = tt
  Finishes-Ended (undefined x, σ) h = h

  after_Finishes :
      {A B : Type 0} (s : B → S → Type 0) (f : A → Run S B) (p : Outcome A × S)
      → Finishes p
      → ((a : A) (σ : S) → Delivers s (f a σ))
      → Delivers s (((λ σ. p) >>= f) p.1)
  after_Finishes s f (returned a, σ) h k = k a σ
  after_Finishes s f (thrown x, σ) h k = h
  after_Finishes s f (undefined x, σ) h k = h

  pub Finishes-Delivers :
      {A B : Type 0} (s : B → S → Type 0) (m : Run S A) (f : A → Run S B) (σ : S)
      → Finishes (m σ)
      → ((a : A) (σ' : S) → Delivers s (f a σ'))
      → Delivers s ((m >>= f) σ)
  Finishes-Delivers s m f σ h k = after_Finishes s f (m σ) h k

  after_Delivers :
      {A B : Type 0} (q : A → S → Type 0) (s : B → S → Type 0) (f : A → Run S B) (p : Outcome A × S)
      → Delivers q p
      → ((a : A) (σ : S) → q a σ → Delivers s (f a σ))
      → Delivers s (((λ σ. p) >>= f) p.1)
  after_Delivers q s f (returned a, σ) h k = k a σ h
  after_Delivers q s f (thrown x, σ) h k = h
  after_Delivers q s f (undefined x, σ) h k = h

  pub Delivers-bind :
      {A B : Type 0} (q : A → S → Type 0) (s : B → S → Type 0) (m : Run S A) (f : A → Run S B)
      (σ : S)
      → Delivers q (m σ)
      → ((a : A) (σ' : S) → q a σ' → Delivers s (f a σ'))
      → Delivers s ((m >>= f) σ)
  Delivers-bind q s m f σ h k = after_Delivers q s f (m σ) h k
