-- ===== src/Outcome.antt =====
-- How a method ends that returns an Option or a Result and may change its object: with a value, without
-- one, by a panic, or because a loop of the model was given too little fuel.

pub data Outcome (S A : Type 0) : Type 0 where
  got : A → S → Outcome S A
  fails : S → Outcome S A
  panicked : Outcome S A
  out_of_fuel : Outcome S A

-- What is done with a value, and what without one; a panic stays one.
abbrev pub and_then :
    {S A T B : Type 0} → Outcome S A → (A → S → Outcome T B) → (S → Outcome T B) → Outcome T B
and_then (got a s) f g = f a s
and_then (fails s) f g = g s
and_then panicked f g = panicked
and_then out_of_fuel f g = out_of_fuel

-- What a value and its state satisfy, and what the state of a failure does; fuel never runs out.
abbrev pub Ends : {S A : Type 0} → (A → S → Type 0) → (S → Type 0) → Outcome S A → Type 0
Ends P Q (got a s) = P a s
Ends P Q (fails s) = Q s
Ends P Q panicked = Unit
Ends P Q out_of_fuel = ⊥

pub and_then-Ends :
    {S A T B : Type 0} (P : A → S → Type 0) (Q : S → Type 0) (P' : B → T → Type 0) (Q' : T → Type 0)
    (o : Outcome S A) (f : A → S → Outcome T B) (g : S → Outcome T B)
    → Ends P Q o
    → ((a : A) (s : S) → P a s → Ends P' Q' (f a s))
    → ((s : S) → Q s → Ends P' Q' (g s))
    → Ends P' Q' (and_then o f g)
and_then-Ends P Q P' Q' (got a s) f g h hf hg = hf a s h
and_then-Ends P Q P' Q' (fails s) f g h hf hg = hg s h
and_then-Ends P Q P' Q' panicked f g h hf hg = tt
and_then-Ends P Q P' Q' out_of_fuel f g h hf hg = h

pub Ends-weaken :
    {S A : Type 0} (P : A → S → Type 0) (Q : S → Type 0) (P' : A → S → Type 0) (Q' : S → Type 0)
    (o : Outcome S A)
    → Ends P Q o
    → ((a : A) (s : S) → P a s → P' a s)
    → ((s : S) → Q s → Q' s)
    → Ends P' Q' o
Ends-weaken P Q P' Q' (got a s) h hp hq = hp a s h
Ends-weaken P Q P' Q' (fails s) h hp hq = hq s h
Ends-weaken P Q P' Q' panicked h hp hq = tt
Ends-weaken P Q P' Q' out_of_fuel h hp hq = h
