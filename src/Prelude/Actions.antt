-- ===== src/Prelude/Actions.antt =====
-- Computations that change a state and may fail, and the rules for the conditions before and after.
use spawnr.Prelude.Results.{Result, ok, err}

-- What a computation returns, and the state that it leaves in any case.
abbrev pub Action : Type 0 → Type 0 → Type 0 → Type 0
Action W E A = W → Result E A × W

-- How it goes on after a first part that gave `v` and left `w`.
abbrev pub rest : {W E A B : Type 0} → Result E A → W → (A → Action W E B) → Result E B × W
rest (ok a) w f = f a w
rest (err e) w f = (err e, w)

infixl 5 ◌>>=◌ ◌>>◌
unfoldable pub ◌>>=◌ : {W E A B : Type 0} → Action W E A → (A → Action W E B) → Action W E B
◌>>=◌ m f w = rest (m w).0 (m w).1 f

abbrev pub ◌>>◌ : {W E B : Type 0} → Action W E (Unit {0}) → Action W E B → Action W E B
m >> k = m >>= λ _. k

unfoldable pub give : {W E A : Type 0} → Result E A → Action W E A
give v w = (v, w)

-- The result as a value.
unfoldable pub attempt : {W E A : Type 0} → Action W E A → Action W E (Result E A)
attempt m w = (ok (m w).0, (m w).1)

-- An operation that cannot fail.
unfoldable pub always : {W E A : Type 0} → (W → A × W) → Action W E A
always op w = (ok (op w).0, (op w).1)

-- What holds of the state that is left: `Q a` with a value, `F` with a failure.
abbrev pub After : {W E A : Type 0} → (W → Type 0) → (A → W → Type 0) → Result E A → W → Type 0
After F Q (ok a) w = Q a w
After F Q (err e) w = F w

pub record Triple {W E A : Type 0} (F P : W → Type 0) (m : Action W E A) (Q : A → W → Type 0)
    : Type 0 where
  pub holds : (w : W) → P w → After F Q (m w).0 (m w).1

rest_lem :
    {W E A B : Type 0} {F : W → Type 0} {Q : A → W → Type 0} {R : B → W → Type 0} (v : Result E A)
    (w : W) {f : A → Action W E B}
    → After F Q v w
    → ((a : A) → Triple F (Q a) (f a) R)
    → After F R (rest v w f).0 (rest v w f).1
rest_lem (ok a) w h hf = (hf a).holds w h
rest_lem (err e) w h hf = h

pub >>=-Triple :
    {W E A B : Type 0} {F P : W → Type 0} {m : Action W E A} {Q : A → W → Type 0}
    {f : A → Action W E B} {R : B → W → Type 0}
    → Triple F P m Q
    → ((a : A) → Triple F (Q a) (f a) R)
    → Triple F P (m >>= f) R
unfolding ◌>>=◌
>>=-Triple {m = m} {f = f} hm hf = record {
  holds = λ w h. rest_lem (m w).0 (m w).1 (hm.holds w h) hf;
}

pub attempt-Triple :
    {W E A : Type 0} {F G P : W → Type 0} {m : Action W E A} {Q : A → W → Type 0}
    → Triple G P m Q
    → Triple F P (attempt m) (λ v w. After G Q v w)
unfolding attempt
attempt-Triple hm = record { holds = hm.holds }

-- A given result: its condition holds already.
pub give-Triple :
    {W E A : Type 0} {F P : W → Type 0} {Q : A → W → Type 0} (v : Result E A)
    → ((w : W) → P w → After F Q v w)
    → Triple F P (give v) Q
unfolding give
give-Triple v h = record { holds = h }

weaken :
    {W E A : Type 0} {F G : W → Type 0} {Q R : A → W → Type 0} (v : Result E A) (w : W)
    → ((u : W) → F u → G u)
    → ((a : A) (u : W) → Q a u → R a u)
    → After F Q v w
    → After G R v w
weaken (ok a) w f q h = q a w h
weaken (err e) w f q h = f w h

pub consequence :
    {W E A : Type 0} {F G P O : W → Type 0} {m : Action W E A} {Q R : A → W → Type 0}
    → ((u : W) → O u → P u)
    → ((u : W) → F u → G u)
    → ((a : A) (u : W) → Q a u → R a u)
    → Triple F P m Q
    → Triple G O m R
consequence {m = m} p f q h = record {
  holds = λ w x. weaken (m w).0 (m w).1 f q (h.holds w (p w x));
}
