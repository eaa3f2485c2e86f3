-- ===== src/Client/Ends.antt =====
-- What is true where a method of src/mqclient.cpp returns, and where it throws.
use ibmmq_metrics_exporter.Base.{
  ◌⊎◌, inl, inr, ◌≡◌, refl, Bool, true, false, if◌then◌else◌, Option, none, some,
}
use ibmmq_metrics_exporter.Memory.{Fault, Result, ok, err}
use ibmmq_metrics_exporter.Client.State.{
  Outcome, returned, thrown, undefined, Run, pure, lift, attempt, ◌>>=◌,
}

-- The errors on memory that are exceptions.
abbrev pub Throws : {A : Type 0} → Result A → Type 0
Throws m = (m ≡ err Fault.length_error) ⊎ (m ≡ err Fault.insufficient_data)

module _ {S : Type 0} where
  abbrev pub Ends : {A : Type 0} → (A → S → Type 0) → (S → Type 0) → Outcome A × S → Type 0
  Ends q e (returned a, σ) = q a σ
  Ends q e (thrown x, σ) = e σ
  Ends q e (undefined x, σ) = Unit {0}

  module _ {A B : Type 0} (q : A → S → Type 0) (s : B → S → Type 0) (e : S → Type 0) where
    Ends-then :
        (f : A → Run S B) (p : Outcome A × S)
        → Ends q e p
        → ((a : A) (σ : S) → q a σ → Ends s e (f a σ))
        → Ends s e (((λ σ. p) >>= f) p.1)
    Ends-then f (returned a, σ) h k = k a σ h
    Ends-then f (thrown x, σ) h k = h
    Ends-then f (undefined x, σ) h k = tt

    pub Ends-bind :
        (m : Run S A) (f : A → Run S B) (σ : S)
        → Ends q e (m σ)
        → ((a : A) (σ' : S) → q a σ' → Ends s e (f a σ'))
        → Ends s e ((m >>= f) σ)
    Ends-bind m f σ h k = Ends-then f (m σ) h k

    -- Where the exceptions differ from those of the rest, the first part's are handled.
    attempt-then :
        (d : S → Type 0) (f : Option A → Run S B) (p : Outcome A × S)
        → Ends q d p
        → ((σ : S) → d σ → Ends s e (f none σ))
        → ((a : A) (σ : S) → q a σ → Ends s e (f (some a) σ))
        → Ends s e ((attempt (λ σ. p) >>= f) p.1)
    attempt-then d f (returned a, σ) h k l = l a σ h
    attempt-then d f (thrown x, σ) h k l = k σ h
    attempt-then d f (undefined x, σ) h k l = tt

    pub Ends-attempt :
        (d : S → Type 0) (m : Run S A) (f : Option A → Run S B) (σ : S)
        → Ends q d (m σ)
        → ((σ' : S) → d σ' → Ends s e (f none σ'))
        → ((a : A) (σ' : S) → q a σ' → Ends s e (f (some a) σ'))
        → Ends s e ((attempt m >>= f) σ)
    Ends-attempt d m f σ h k l = attempt-then d f (m σ) h k l

  module _ {A B : Type 0} (q : B → S → Type 0) (e : S → Type 0) where
    -- What is returned is changed, and nothing else.
    map-then :
        (f : A → B) (p : Outcome A × S)
        → Ends (λ a. q (f a)) e p
        → Ends q e (((λ σ. p) >>= λ a. pure (f a)) p.1)
    map-then f (returned a, σ) h = h
    map-then f (thrown x, σ) h = h
    map-then f (undefined x, σ) h = h

    pub Ends-map :
        (m : Run S A) (f : A → B) (σ : S)
        → Ends (λ a. q (f a)) e (m σ)
        → Ends q e ((m >>= λ a. pure (f a)) σ)
    Ends-map m f σ h = map-then f (m σ) h

    -- A computation on memory alone comes first.
    pub Ends-lift_bind :
        (m : Result A) (f : A → Run S B) (σ : S)
        → ((a : A) → Ends q e (f a σ))
        → (Throws m → e σ)
        → Ends q e ((lift m >>= f) σ)
    Ends-lift_bind (ok a) f σ h k = h a
    Ends-lift_bind (err Fault.length_error) f σ h k = k (inl refl)
    Ends-lift_bind (err Fault.out_of_bounds) f σ h k = tt
    Ends-lift_bind (err Fault.insufficient_data) f σ h k = k (inr refl)
    Ends-lift_bind (err Fault.out_of_fuel) f σ h k = tt

  module _ {A : Type 0} (q : A → S → Type 0) (e : S → Type 0) where
    pub Ends-if :
        (b : Bool) (m n : Run S A) (σ : S)
        → (b ≡ true → Ends q e (m σ))
        → (b ≡ false → Ends q e (n σ))
        → Ends q e ((if b then m else n) σ)
    Ends-if true m n σ h k = h refl
    Ends-if false m n σ h k = k refl

    pub Ends-elim :
        (b : Bool) (m n : Run S A) (σ : S)
        → Ends q e (m σ)
        → Ends q e (n σ)
        → (let r : Run S A = elim b [ true ↦ m | false ↦ n ] in Ends q e (r σ))
    Ends-elim true m n σ h k = h
    Ends-elim false m n σ h k = k

    -- A computation on memory alone changes nothing.
    pub Ends-lift : (m : Result A) (σ : S) → ((a : A) → q a σ) → e σ → Ends q e (lift m σ)
    Ends-lift (ok a) σ h k = h a
    Ends-lift (err Fault.length_error) σ h k = k
    Ends-lift (err Fault.out_of_bounds) σ h k = tt
    Ends-lift (err Fault.insufficient_data) σ h k = k
    Ends-lift (err Fault.out_of_fuel) σ h k = tt

  pub Ends-weaken :
      {A : Type 0} (q q' : A → S → Type 0) (e e' : S → Type 0) (p : Outcome A × S)
      → ((a : A) (σ : S) → q a σ → q' a σ)
      → ((σ : S) → e σ → e' σ)
      → Ends q e p
      → Ends q' e' p
  Ends-weaken q q' e e' (returned a, σ) h k l = h a σ l
  Ends-weaken q q' e e' (thrown x, σ) h k l = k σ l
  Ends-weaken q q' e e' (undefined x, σ) h k l = tt
