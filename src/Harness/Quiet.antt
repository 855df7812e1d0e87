-- ===== src/Harness/Quiet.antt =====
-- Which parts of dagr_mcp/enforcement_harness.py do not call the inner handler.
use dagr_mcp.Prelude.{
  Bool, true, false, ◌≡◌, refl, sym, subst, inl, inr, Result-cases, arith, Option, none, some, ◌∷◌,
  Result, ok, raised, if◌then◌else◌,
}
use dagr_mcp.Harness.{Raise, sink_unavailable, exception, base, Effect, called, History, State}
use dagr_mcp.Harness.Acts.{Act, pure, ◌>>=◌, context, set_context, try, or_unavailable, ask, lift}
use dagr_mcp.Harness.{HarnessContext}

abbrev pub is_call : Effect → Bool
is_call (called tool_name arguments caller answer) = true
is_call _ = false

-- Nothing was called after `past` but collaborators other than the inner handler.
pub data Quiet (past : History) : History → Type 0 where
  nothing : Quiet past past
  noted : {now : History} (e : Effect) → is_call e ≡ false → Quiet past now → Quiet past (e ∷ now)

pub Quiet-trans : {a b c : History} → Quiet a b → Quiet b c → Quiet a c
Quiet-trans p nothing = p
Quiet-trans p (noted e h q) = noted e h (Quiet-trans p q)

pub data IsQuiet {A : Type 0} (m : Act A) : Type 0 where
  quiet : ((s : State) → Quiet s.history (m s).1.history) → IsQuiet m

pub IsQuiet-Quiet :
    {A : Type 0} {m : Act A} → IsQuiet m → (s : State) → Quiet s.history (m s).1.history
IsQuiet-Quiet (quiet p) = p

pub pure-IsQuiet : {A : Type 0} (a : A) → IsQuiet (pure a)
pure-IsQuiet a = quiet (λ s. nothing)

pub lift-IsQuiet : {A : Type 0} (r : Result Raise A) → IsQuiet (lift r)
unfolding lift
lift-IsQuiet r = quiet (λ s. nothing)

pub context-IsQuiet : IsQuiet context
context-IsQuiet = quiet (λ s. nothing)

pub set_context-IsQuiet : (c : HarnessContext) → IsQuiet (set_context c)
set_context-IsQuiet c = quiet (λ s. nothing)

next : {A B : Type 0} → (A → Act B) → Result Raise A → State → Result Raise B × State
next f r t = elim r [ ok a ↦ f a t | raised e ↦ (raised e, t) ]

next-Quiet :
    {A B : Type 0} {past : History} (f : A → Act B)
    → ((a : A) → IsQuiet (f a))
    → (r : Result Raise A) (t : State) → Quiet past t.history
    → Quiet past (next f r t).1.history
unfolding next
next-Quiet f q (ok a) t p = Quiet-trans p (IsQuiet-Quiet (q a) t)
next-Quiet f q (raised e) t p = p

pub >>=-IsQuiet :
    {A B : Type 0} {m : Act A} {f : A → Act B}
    → IsQuiet m
    → ((a : A) → IsQuiet (f a))
    → IsQuiet (m >>= f)
unfolding ◌>>=◌ next
>>=-IsQuiet {A} {B} {m} {f} p q = quiet (λ s. next-Quiet f q (m s).0 (m s).1 (IsQuiet-Quiet p s))

caught : {A : Type 0} → Result Raise A → State → Result Raise (Option A) × State
caught r t = elim r [
  | ok a ↦ (ok (some a), t)
  | raised e ↦ elim e [ base class ↦ (raised (base class), t) | _ ↦ (ok none, t) ]
]

caught-state : {A : Type 0} (r : Result Raise A) (t : State) → (caught r t).1 ≡ t
unfolding caught
caught-state r t = ground arith

pub try-IsQuiet : {A : Type 0} {m : Act A} → IsQuiet m → IsQuiet (try m)
unfolding try caught
try-IsQuiet {A} {m} p = quiet (λ s.
    subst (λ t. Quiet s.history t.history) (sym (caught-state (m s).0 (m s).1)) (IsQuiet-Quiet p s))

passed : {A : Type 0} → Result Raise A → State → Result Raise (Option A) × State
passed r t = elim r [
  | ok a ↦ (ok (some a), t)
  | raised e ↦ elim e [
    | sink_unavailable ↦ (ok none, t)
    | exception class ↦ (raised (exception class), t)
    | base class ↦ (raised (base class), t)
  ]
]

passed-state : {A : Type 0} (r : Result Raise A) (t : State) → (passed r t).1 ≡ t
unfolding passed
passed-state r t = ground arith

pub or_unavailable-IsQuiet : {A : Type 0} {m : Act A} → IsQuiet m → IsQuiet (or_unavailable m)
unfolding or_unavailable passed
or_unavailable-IsQuiet {A} {m} p = quiet (λ s.
    subst (λ t. Quiet s.history t.history) (sym (passed-state (m s).0 (m s).1)) (IsQuiet-Quiet p s))

pub ask-IsQuiet :
    {A : Type 0} (answer : History → Result Raise A) (effect : Result Raise A → Effect)
    → ((a : Result Raise A) → is_call (effect a) ≡ false)
    → IsQuiet (ask answer effect)
unfolding ask
ask-IsQuiet answer effect h = quiet (λ s. noted _ (h _) nothing)

pub option-IsQuiet :
    {A B : Type 0} (o : Option A) {m : Act B} {f : A → Act B}
    → IsQuiet m
    → ((a : A) → IsQuiet (f a))
    → IsQuiet (elim o as (λ _. Act B) [ none ↦ m | some a ↦ f a ])
option-IsQuiet none p q = p
option-IsQuiet (some a) p q = q a

pub if-IsQuiet :
    {B : Type 0} (b : Bool) {m n : Act B} → IsQuiet m → IsQuiet n → IsQuiet (if b then m else n)
if-IsQuiet true p q = p
if-IsQuiet false p q = q

-- To show something of the state after a sequence, from what its first part answered.
pub after_first :
    {A B : Type 0} (P : State → Type 0) (m : Act A) (f : A → Act B) (s : State)
    → ((a : A) → (m s).0 ≡ ok a → P (f a (m s).1).1)
    → ((e : Raise) → (m s).0 ≡ raised e → P (m s).1)
    → P ((m >>= f) s).1
unfolding ◌>>=◌ next
after_first P m f s p q = elim (Result-cases (m s).0) [
  | inl (a, h) ↦ subst (λ r. P (next f r (m s).1).1) (sym h) (p a h)
  | inr (e, h) ↦ subst (λ r. P (next f r (m s).1).1) (sym h) (q e h)
]

-- A sequence that returns: what its first part answered, and that the rest goes on from there.
pub >>=-inv :
    {A B : Type 0} (m : Act A) (f : A → Act B) (s : State) {b : B}
    → ((m >>= f) s).0 ≡ ok b
    → (a : A) × ((m s).0 ≡ ok a) × ((m >>= f) s ≡ f a (m s).1)
unfolding ◌>>=◌
>>=-inv m f s h = elim (Result-cases (m s).0) [
  | inl (a, e) ↦ (a, e, ground arith)
  | inr (e, k) ↦ absurd (ground arith)
]

-- To show something of a branch, with what decides it.
pub by_if :
    {B : Type 0} (P : Act B → Type 0) (b : Bool) {m n : Act B}
    → (b ≡ true → P m)
    → (b ≡ false → P n)
    → P (if b then m else n)
by_if P true p q = p refl
by_if P false p q = q refl

pub by_option :
    {A B : Type 0} (P : Act B → Type 0) (o : Option A) {m : Act B} {f : A → Act B}
    → (o ≡ none → P m)
    → ((a : A) → o ≡ some a → P (f a))
    → P (elim o as (λ _. Act B) [ none ↦ m | some a ↦ f a ])
by_option P none p q = p refl
by_option P (some a) p q = q a refl
