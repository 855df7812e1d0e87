-- ===== src/Harness/Returns.antt =====
-- Which parts of dagr_mcp/enforcement_harness.py return, and do not raise.
use dagr_mcp.Prelude.{
  String, Bool, true, false, ◌≡◌, refl, arith, Option, none, some, Result, ok, raised, is_ok,
  if◌then◌else◌,
}
use dagr_mcp.Harness.{
  PolicyDecision, HarnessContext, Raise, sink_unavailable, exception, base, Effect, History, State,
}
use dagr_mcp.Python.{Value}
use dagr_mcp.Harness.Acts.{Act, pure, ◌>>=◌, context, set_context, try, or_unavailable, ask, lift}
use dagr_mcp.Harness.Policy.{fail_with}
use dagr_mcp.Harness.Run.{attempt}

-- It is returned, or the `Exception` is a value of the program.
abbrev pub is_caught : {A : Type 0} → Result Raise A → Bool
is_caught (ok a) = true
is_caught (raised sink_unavailable) = true
is_caught (raised (exception class)) = true
is_caught (raised (base class)) = false

-- It is returned, or a `SinkUnavailableError`.
abbrev pub is_passed : {A : Type 0} → Result Raise A → Bool
is_passed (ok a) = true
is_passed (raised sink_unavailable) = true
is_passed (raised (exception class)) = false
is_passed (raised (base class)) = false

pub data Returns {A : Type 0} (m : Act A) : Type 0 where
  returns : ((s : State) → is_ok (m s).0 ≡ true) → Returns m

pub Returns-ok : {A : Type 0} {m : Act A} → Returns m → (s : State) → is_ok (m s).0 ≡ true
Returns-ok (returns p) = p

-- A call that returns or raises what `except Exception` catches, and what
-- `except SinkUnavailableError` catches.
pub data Caught {A : Type 0} (m : Act A) : Type 0 where
  caught_at : ((s : State) → is_caught (m s).0 ≡ true) → Caught m

pub data Passed {A : Type 0} (m : Act A) : Type 0 where
  passed_at : ((s : State) → is_passed (m s).0 ≡ true) → Passed m

pub ask-Caught :
    {A : Type 0} (answer : History → Result Raise A) (effect : Result Raise A → Effect)
    → ((past : History) → is_caught (answer past) ≡ true)
    → Caught (ask answer effect)
unfolding ask
ask-Caught answer effect p = caught_at (λ s. p s.history)

pub ask-Passed :
    {A : Type 0} (answer : History → Result Raise A) (effect : Result Raise A → Effect)
    → ((past : History) → is_passed (answer past) ≡ true)
    → Passed (ask answer effect)
unfolding ask
ask-Passed answer effect p = passed_at (λ s. p s.history)

pub pure-Returns : {A : Type 0} (a : A) → Returns (pure a)
pure-Returns a = returns (λ s. refl)

pub context-Returns : Returns context
context-Returns = returns (λ s. refl)

pub set_context-Returns : (c : HarnessContext) → Returns (set_context c)
set_context-Returns c = returns (λ s. refl)

pub fail_with-Returns : (reason : String) (d : Option PolicyDecision) → Returns (fail_with reason d)
unfolding fail_with
fail_with-Returns reason d = returns (λ s. refl)

next : {A B : Type 0} → (A → Act B) → Result Raise A → State → Result Raise B × State
next f r t = elim r [ ok a ↦ f a t | raised e ↦ (raised e, t) ]

next-ok :
    {A B : Type 0} (f : A → Act B)
    → ((a : A) → Returns (f a))
    → (r : Result Raise A) (t : State) → is_ok r ≡ true
    → is_ok (next f r t).0 ≡ true
unfolding next
next-ok f q (ok a) t p = Returns-ok (q a) t
next-ok f q (raised e) t p = p

pub >>=-Returns :
    {A B : Type 0} {m : Act A} {f : A → Act B}
    → Returns m
    → ((a : A) → Returns (f a))
    → Returns (m >>= f)
unfolding ◌>>=◌ next
>>=-Returns {A} {B} {m} {f} p q = returns (λ s. next-ok f q (m s).0 (m s).1 (Returns-ok p s))

caught : {A : Type 0} → Result Raise A → State → Result Raise (Option A) × State
caught r t = elim r [
  | ok a ↦ (ok (some a), t)
  | raised e ↦ elim e [ base class ↦ (raised (base class), t) | _ ↦ (ok none, t) ]
]

caught-ok :
    {A : Type 0} (r : Result Raise A) (t : State) → is_caught r ≡ true → is_ok (caught r t).0 ≡ true
unfolding caught
caught-ok r t h = ground arith

pub try-Returns : {A : Type 0} {m : Act A} → Caught m → Returns (try m)
unfolding try caught
try-Returns {A} {m} (caught_at p) = returns (λ s. caught-ok (m s).0 (m s).1 (p s))

passed : {A : Type 0} → Result Raise A → State → Result Raise (Option A) × State
passed r t = elim r [
  | ok a ↦ (ok (some a), t)
  | raised e ↦ elim e [
    | sink_unavailable ↦ (ok none, t)
    | exception class ↦ (raised (exception class), t)
    | base class ↦ (raised (base class), t)
  ]
]

passed-ok :
    {A : Type 0} (r : Result Raise A) (t : State) → is_passed r ≡ true → is_ok (passed r t).0 ≡ true
unfolding passed
passed-ok r t h = ground arith

pub or_unavailable-Returns : {A : Type 0} {m : Act A} → Passed m → Returns (or_unavailable m)
unfolding or_unavailable passed
or_unavailable-Returns {A} {m} (passed_at p) = returns (λ s. passed-ok (m s).0 (m s).1 (p s))

attempted : Result Raise Value → State → Result Raise (Result Raise Value) × State
attempted r t = elim r [
  | ok v ↦ (ok (ok v), t)
  | raised e ↦ elim e [
    | base class ↦ (raised (base class), t)
    | sink_unavailable ↦ (ok (raised sink_unavailable), t)
    | exception class ↦ (ok (raised (exception class)), t)
  ]
]

pub lift-Returns : {A : Type 0} (r : Result Raise A) → is_ok r ≡ true → Returns (lift r)
unfolding lift
lift-Returns r h = returns (λ s. h)

attempted-Returns :
    {B : Type 0} (f : Result Raise Value → Act B) (r : Result Raise Value) (t : State)
    → is_caught r ≡ true
    → ((v : Value) → r ≡ ok v → Returns (f (ok v)))
    → ((e : Raise) → Returns (f (raised e)))
    → is_ok (next f (attempted r t).0 (attempted r t).1).0 ≡ true
unfolding attempted next
attempted-Returns f (ok v) t c p q = Returns-ok (p v refl) t
attempted-Returns f (raised sink_unavailable) t c p q = Returns-ok (q sink_unavailable) t
attempted-Returns f (raised (exception class)) t c p q = Returns-ok (q (exception class)) t
attempted-Returns f (raised (base class)) t c p q = absurd cc

-- What follows an attempt returns, for each value that it gave.
pub attempt_then-Returns :
    {B : Type 0} {m : Act Value} (f : Result Raise Value → Act B)
    → Caught m
    → ((s : State) (v : Value) → (m s).0 ≡ ok v → Returns (f (ok v)))
    → ((e : Raise) → Returns (f (raised e)))
    → Returns (attempt m >>= f)
unfolding attempt attempted ◌>>=◌ next
attempt_then-Returns {B} {m} f (caught_at c) p q =
    returns (λ s. attempted-Returns f (m s).0 (m s).1 (c s) (p s) q)

pub option-Returns :
    {A B : Type 0} (o : Option A) {m : Act B} {f : A → Act B}
    → Returns m
    → ((a : A) → o ≡ some a → Returns (f a))
    → Returns (elim o as (λ _. Act B) [ none ↦ m | some a ↦ f a ])
option-Returns none p q = p
option-Returns (some a) p q = q a refl

pub if-Returns :
    {B : Type 0} (b : Bool) {m n : Act B} → Returns m → Returns n → Returns (if b then m else n)
if-Returns true p q = p
if-Returns false p q = q
