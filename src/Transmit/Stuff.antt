-- ===== src/Transmit/Stuff.antt =====
-- Bit stuffing as USB specifies it: a zero after every six ones, to be dropped by the receiver.
use ciexpert_usbdev.Base.{
  ℕ, suc, ◌≤◌, ◌≡◌, refl, sym, ap, ◌∙◌, Bool, true, false, List, [], ◌∷◌, ◌++◌, arith, ◌==◌,
  if◌then◌else◌, Bool-cases, inl, inr,
}

-- The count of ones at the end, after one more bit.
abbrev pub next_run : ℕ → Bool → ℕ
next_run n true = suc n
next_run n false = 0

-- The stuffed bit that is due after `n` ones, and the count behind it.
abbrev pub due : ℕ → List Bool
due n = if n == 6 then false ∷ [] else []

abbrev pub settled : ℕ → ℕ
settled n = if n == 6 then 0 else n

-- The bits of a packet with stuffing, up to the last of them, and the count of ones at the end.
abbrev pub body : ℕ → List Bool → List Bool
body n [] = []
body n (b ∷ bs) = due n ++ b ∷ body (next_run (settled n) b) bs

abbrev pub run : ℕ → List Bool → ℕ
run n [] = n
run n (b ∷ bs) = run (next_run (settled n) b) bs

abbrev pub stuff : ℕ → List Bool → List Bool
stuff n bs = body n bs ++ due (run n bs)

-- The receiver, which has seen `n` ones.
abbrev pub unstuff : ℕ → List Bool → List Bool
unstuff n [] = []
unstuff n (b ∷ bs) =
    let dropped = unstuff 0 bs in
    let kept = b ∷ unstuff (next_run n b) bs in if n == 6 then dropped else kept

pub append_assoc : (xs ys zs : List Bool) → (xs ++ ys) ++ zs ≡ xs ++ (ys ++ zs)
append_assoc [] ys zs = refl
append_assoc (x ∷ xs) ys zs = ap (λ l. x ∷ l) (append_assoc xs ys zs)

pub body-append : (n : ℕ) (xs ys : List Bool) → body n (xs ++ ys) ≡ body n xs ++ body (run n xs) ys
body-append n [] ys = refl
body-append n (x ∷ xs) ys =
    ap (λ l. due n ++ x ∷ l) (body-append (next_run (settled n) x) xs ys)
    ∙ sym (append_assoc (due n) (x ∷ body (next_run (settled n) x) xs) _)

pub run-append : (n : ℕ) (xs ys : List Bool) → run n (xs ++ ys) ≡ run (run n xs) ys
run-append n [] ys = refl
run-append n (x ∷ xs) ys = run-append (next_run (settled n) x) xs ys

pub settled_next_le : (n : ℕ) (b : Bool) → n ≤ 6 → next_run (settled n) b ≤ 6
settled_next_le n true h = ground arith
settled_next_le n false h = ground arith

pub run-le : (n : ℕ) (bs : List Bool) → n ≤ 6 → run n bs ≤ 6
run-le n [] h = h
run-le n (b ∷ bs) h = run-le (next_run (settled n) b) bs (settled_next_le n b h)

-- The receiver drops a stuffed bit.
unstuff-due : (n : ℕ) (bs : List Bool) → unstuff n (due n ++ bs) ≡ unstuff (settled n) bs
unstuff-due n bs = elim (Bool-cases (n == 6)) [ inl e ↦ rw e (rw e refl) | inr e ↦ rw e refl ]

settled_not_six : (n : ℕ) → (settled n == 6) ≡ false
settled_not_six n = ground arith

-- The receiver gets back the bits of every packet, whatever the ones in front of it.
pub unstuff-stuff : (n : ℕ) (bs : List Bool) → unstuff n (stuff n bs) ≡ bs
unstuff-stuff n [] = elim (Bool-cases (n == 6)) [ inl e ↦ rw e (rw e refl) | inr e ↦ rw e refl ]
unstuff-stuff n (b ∷ bs) =
    ap (λ (l : List Bool). unstuff n l)
      (append_assoc (due n) (b ∷ body (next_run (settled n) b) bs) _)
    ∙ unstuff-due n (b ∷ stuff (next_run (settled n) b) bs)
    ∙ rw (settled_not_six n)
        (ap (λ (l : List Bool). b ∷ l) (unstuff-stuff (next_run (settled n) b) bs))
