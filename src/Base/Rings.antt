-- ===== src/Base/Rings.antt =====
-- Slots of a circular buffer: positions that wrap, and what the slots hold in their order.
use Prim.Native.Nat.{ℕ, zero, suc, ◌+◌, ◌-◌, ◌%◌, ◌≤◌, ◌<◌}
use native.Mathlib.Nat.{mod-add-mod}
use mathlib.Core.Path.{◌≡◌, refl, ap, ◌∙◌}
use mathlib.Core.Logic.{◌≢◌}
use mathlib.Core.List.{List, [], ◌∷◌, ◌++◌}
use native.Mathlib.Omega.{arith}
use echo_ai_c.Base.Lists.{length, get_or, drop}

pub wrap_low : (a c : ℕ) → a < c → a % c ≡ a
wrap_low a c h = grind arith

pub wrap_high : (a c : ℕ) → c ≤ a → a < c + c → a % c ≡ a - c
wrap_high a c h k = grind arith

pub other_slot :
    (head i j cap : ℕ) → head < cap → i < j → j < cap → (head + i) % cap ≢ (head + j) % cap
other_slot head i j cap h l m = grind (arith, wrap_low, wrap_high)

-- `f 0`, `f 1`, ... up to `f (n - 1)`
abbrev pub window {ℓ} : {A : Type ℓ} → (ℕ → A) → ℕ → List A
window f zero = []
window f (suc n) = f 0 ∷ window (λ i. f (suc i)) n

pub window-cong {ℓ} :
    {A : Type ℓ} (n : ℕ) (f g : ℕ → A) → ((i : ℕ) → i < n → f i ≡ g i) → window f n ≡ window g n
window-cong zero f g h = refl
window-cong (suc n) f g h =
    rw
      (
        h 0 (omega arith),
        window-cong n (λ i. f (suc i)) (λ i. g (suc i)) (λ i l. h (suc i) (omega arith)),
      )
      refl

pub window-snoc {ℓ} : {A : Type ℓ} (n : ℕ) (f : ℕ → A) → window f (n + 1) ≡ window f n ++ (f n ∷ [])
window-snoc zero f = refl
window-snoc (suc n) f =
    let same : suc n + 1 ≡ suc (n + 1) = omega arith in
    rw same (ap (◌∷◌ (f 0)) (window-snoc n (λ i. f (suc i))))

pub get_or-window {ℓ} :
    {A : Type ℓ} (n i : ℕ) (f : ℕ → A) (d : A) → i < n → get_or (window f n) i d ≡ f i
get_or-window zero i f d h = absurd (omega arith)
get_or-window (suc n) zero f d h = refl
get_or-window (suc n) (suc i) f d h = get_or-window n i (λ i. f (suc i)) d (omega arith)

pub length-window {ℓ} : {A : Type ℓ} (n : ℕ) (f : ℕ → A) → length (window f n) ≡ n
length-window zero f = refl
length-window (suc n) f = ap suc (length-window n (λ i. f (suc i)))

pub window-shift {ℓ} :
    {A : Type ℓ} (n : ℕ) (f g : ℕ → A) (x : A)
    → ((i : ℕ) → i < n → g i ≡ f (suc i))
    → g n ≡ x
    → window g (suc n) ≡ drop 1 (window f (suc n)) ++ (x ∷ [])
window-shift n f g x h last =
    let same : suc n ≡ n + 1 = omega arith in
    ap (window g) same ∙ window-snoc n g ∙ rw (window-cong n g (λ i. f (suc i)) h, last) refl

pub next_slot : (head i room : ℕ) → ((head + 1) % room + i) % room ≡ (head + suc i) % room
next_slot head i room =
    let same : head + 1 + i ≡ head + suc i = omega arith in
    mod-add-mod (head + 1) room i ∙ ap (λ k. k % room) same
