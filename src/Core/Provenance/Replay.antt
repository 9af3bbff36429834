-- ===== src/Core/Provenance/Replay.antt =====
-- The loops over a whole event file: what they deliver, and that their fuel is enough.
use cautreo.Base.{
  ℕ, zero, suc, ◌+◌, ◌%◌, ◌^◌, ◌≤◌, ◌<◌, ◌≡◌, refl, ◌∙◌, Option, some, List, [], ◌∷◌, ◌++◌, map,
  length, drop, ◌==◌, if◌then◌else◌, length-append, length-drop, arith, All, inc64, inl, inr,
  Bool-cases, subst, ◌⊎◌,
}
use cautreo.Base.Bytes.{read_word}
use cautreo.Core.Provenance.{
  Event, Handler, ReplayResult, Outcome, done, broken, overrun, or_break, event_bytes, read_text,
  read_event, handle, replay_loop, skip_field, count_loop, ◌>>=◌,
}
use cautreo.Core.Provenance.Codec.{
  IsStorable, IsReplayable, stored, read_event-event_bytes, skip_record, length-event_bytes,
  read_word-event_bytes,
}

-- The records of a list of events, one after the other.
unfoldable pub all_bytes : List Event → List ℕ
all_bytes [] = []
all_bytes (e ∷ es) = event_bytes e ++ all_bytes es

read_event-nil : {e : Event} {rest : List ℕ} → ¬ (read_event [] ≡ done (e, rest))
unfolding read_event read_word
read_event-nil eq = cc

read_word-nil : {v : ℕ} {rest : List ℕ} → ¬ (read_word 4 [] ≡ some (v, rest))
unfolding read_word
read_word-nil eq = cc

module _ {ℓ} {U : Type ℓ} where
  -- Delivering the events in order.
  unfoldable pub handle_all : Handler U → List Event → ReplayResult → U → ReplayResult × U
  handle_all h [] r u = (r, u)
  handle_all h (e ∷ es) r u = handle_all h es (handle h e r u).0 (handle h e r u).1

  replay_loop-step :
      (fuel : ℕ) (file : List ℕ) (h : Handler U) (r : ReplayResult) (u : U) (e : Event)
      (rest : List ℕ)
      → read_event file ≡ done (e, rest)
      → replay_loop (suc fuel) file h r u
        ≡ replay_loop fuel rest h (handle h e r u).0 (handle h e r u).1
  unfolding replay_loop
  replay_loop-step fuel [] h r u e rest eq = absurd (read_event-nil eq)
  replay_loop-step fuel (b ∷ file) h r u e rest eq = rw (eq, replay_loop)

  pub replay_loop-all_bytes :
      (fuel : ℕ) (es : List Event) (h : Handler U) (r : ReplayResult) (u : U)
      → length (all_bytes es) ≤ fuel
      → All IsReplayable es
      → replay_loop fuel (all_bytes es) h r u ≡ some (handle_all h (map stored es) r u)
  unfolding all_bytes handle_all replay_loop
  replay_loop-all_bytes zero [] h r u n v = refl
  replay_loop-all_bytes (suc fuel) [] h r u n v = refl
  replay_loop-all_bytes zero (e ∷ es) h r u n v =
      absurd (omega (arith, length-append (event_bytes e) (all_bytes es), length-event_bytes e))
  replay_loop-all_bytes (suc fuel) (e ∷ es) h r u n v =
      replay_loop-step fuel _ h r u (stored e) (all_bytes es)
        (read_event-event_bytes e (all_bytes es) v.0)
      ∙ replay_loop-all_bytes fuel es h _ _
          (omega (arith, length-append (event_bytes e) (all_bytes es), length-event_bytes e)) v.1

count_loop-step :
    (fuel : ℕ) (file : List ℕ) (type count : ℕ) (t : ℕ) (rest : List ℕ)
    → read_word 4 file ≡ some (t, rest)
    → count_loop (suc fuel) file type count
      ≡ count_loop fuel
          (skip_field (skip_field (skip_field (drop 24 rest))))
          type
          (if t == type then inc64 count else count)
unfolding count_loop
count_loop-step fuel [] type count t rest eq = absurd (read_word-nil eq)
count_loop-step fuel (b ∷ file) type count t rest eq = rw (eq, count_loop)

-- How often a type occurs.
unfoldable pub occurrences : ℕ → List Event → ℕ
occurrences type [] = 0
occurrences type (e ∷ es) = (if e.type == type then 1 else 0) + occurrences type es

pub count_loop-all_bytes :
    (fuel : ℕ) (es : List Event) (type count : ℕ)
    → length (all_bytes es) ≤ fuel
    → count < 2 ^ 64
    → All IsStorable es
    → count_loop fuel (all_bytes es) type count ≡ (count + occurrences type es) % 2 ^ 64
unfolding all_bytes count_loop occurrences
count_loop-all_bytes zero [] type count n c v = omega arith
count_loop-all_bytes (suc fuel) [] type count n c v = omega arith
count_loop-all_bytes zero (e ∷ es) type count n c v =
    absurd (omega (arith, length-append (event_bytes e) (all_bytes es), length-event_bytes e))
count_loop-all_bytes (suc fuel) (e ∷ es) type count n c v =
    count_loop-step fuel _ type count e.type _ (read_word-event_bytes e (all_bytes es) v.0)
    ∙ (rw (skip_record e (all_bytes es) v.0) (elim (Bool-cases (e.type == type)) [
      | inl same ↦ rw same (
          count_loop-all_bytes fuel es type (inc64 count) (fuel_left) (omega arith) v.1
          ∙ omega arith)
      | inr other ↦
          rw other (count_loop-all_bytes fuel es type count (fuel_left) c v.1 ∙ omega arith)
    ]))
  where
    fuel_left : length (all_bytes es) ≤ fuel
    fuel_left = omega (arith, length-append (event_bytes e) (all_bytes es), length-event_bytes e)

-- What is left of the file has `n` bytes at most.
abbrev Within {ℓ} : {A : Type ℓ} → ℕ → Outcome (A × List ℕ) → Type 0
Within n broken = Unit {0}
Within n overrun = Unit {0}
Within n (done (_, rest)) = length rest ≤ n

Within-bind {ℓ κ} :
    {A : Type ℓ} {B : Type κ} (n : ℕ) (m : Outcome (A × List ℕ))
    (f : A × List ℕ → Outcome (B × List ℕ))
    → Within n m
    → ((x : A × List ℕ) → length x.1 ≤ n → Within n (f x))
    → Within n (m >>= f)
Within-bind n broken f w k = tt
Within-bind n overrun f w k = tt
Within-bind n (done x) f w k = k x w

read_word-Within :
    (n k : ℕ) (file : List ℕ) → length file ≤ n + k → Within n (or_break (read_word k file))
unfolding read_word
read_word-Within n k file h = ground (arith, length-drop k file)

read_text-Within : (n len : ℕ) (file : List ℕ) → length file ≤ n → Within n (read_text len file)
unfolding read_text
read_text-Within n len file h = ground (arith, length-drop len file)

-- A round of the replay loop takes at least one byte.
read_event-Within : (b : ℕ) (file : List ℕ) → Within (length file) (read_event (b ∷ file))
unfolding read_event
read_event-Within b file =
    Within-bind n (or_break (read_word 4 (b ∷ file))) _
      (read_word-Within n 4 (b ∷ file) (omega arith))
      λ x hx. word 8 x.1 hx _ λ y hy. word 8 y.1 hy _ λ z hz. word 8 z.1 hz _ λ w hw.
        word 4 w.1 hw _ λ d hd. text d.0 d.1 hd _ λ a ha. word 4 a.1 ha _ λ s hs.
          text s.0 s.1 hs _ λ c hc. word 4 c.1 hc _ λ p hp. omega (arith, length-drop p.0 p.1)
  where
    n : ℕ
    n = length file

    word :
        (k : ℕ) (f : List ℕ)
        → length f ≤ n
        → (g : ℕ × List ℕ → Outcome (Event × List ℕ))
        → ((x : ℕ × List ℕ) → length x.1 ≤ n → Within n (g x))
        → Within n (or_break (read_word k f) >>= g)
    word k f h g = Within-bind n (or_break (read_word k f)) g (read_word-Within n k f (omega arith))

    text :
        (len : ℕ) (f : List ℕ)
        → length f ≤ n
        → (g : Option (List ℕ) × List ℕ → Outcome (Event × List ℕ))
        → ((x : Option (List ℕ) × List ℕ) → length x.1 ≤ n → Within n (g x))
        → Within n (read_text len f >>= g)
    text len f h g = Within-bind n (read_text len f) g (read_text-Within n len f h)

Outcome-cases {ℓ} :
    {A : Type ℓ} (m : Outcome A) → (m ≡ broken) ⊎ ((m ≡ overrun) ⊎ ((a : A) × (m ≡ done a)))
Outcome-cases broken = inl refl
Outcome-cases overrun = inr (inl refl)
Outcome-cases (done a) = inr (inr (a, refl))

-- Whatever bytes the file holds, the replay loop ends within as many rounds as the file has bytes, or
-- stops earlier at a string whose length of 2^32 - 1 makes the code write behind a block: any two
-- amounts of fuel that reach the length of the file give the same result.
pub replay_loop_fuel {ℓ} :
    {U : Type ℓ} (f g : ℕ) (file : List ℕ) (h : Handler U) (r : ReplayResult) (u : U)
    → length file ≤ f
    → length file ≤ g
    → replay_loop f file h r u ≡ replay_loop g file h r u
unfolding replay_loop
replay_loop_fuel zero zero file h r u p q = refl
replay_loop_fuel zero (suc g) [] h r u p q = refl
replay_loop_fuel (suc f) zero [] h r u p q = refl
replay_loop_fuel (suc f) (suc g) [] h r u p q = refl
replay_loop_fuel zero g (b ∷ file) h r u p q = absurd (omega arith)
replay_loop_fuel f zero (b ∷ file) h r u p q = absurd (omega arith)
replay_loop_fuel (suc f) (suc g) (b ∷ file) h r u p q =
    elim (Outcome-cases (read_event (b ∷ file))) [
      | inl e ↦ rw (e, replay_loop)
      | inr (inl e) ↦ rw (e, replay_loop)
      | inr (inr ((e, rest), eq)) ↦
          let shorter : length rest ≤ length file =
            subst (Within (length file)) eq (read_event-Within b file) in
          rw (eq, replay_loop) (replay_loop_fuel f g rest h _ _ (omega arith) (omega arith))
    ]
