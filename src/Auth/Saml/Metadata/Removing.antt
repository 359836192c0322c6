-- ===== src/Auth/Saml/Metadata/Removing.antt =====
-- The loop that removes the encryption keys, against the list of the keys that are left.
use go_baseapp.Prelude.{
  ℕ, zero, suc, ◌+◌, ◌-◌, ◌≤◌, ◌≡◌, refl, sym, ap, ◌∙◌, true, false, none, some, List, [], ◌∷◌,
  ◌++◌, append_assoc, append-nil, arith, leb, length, get_elem?, take, drop, length-append,
  take-length-append, get_elem?-append, All, All-append,
}
use go_baseapp.Auth.Saml.{KeyDescriptor}
use go_baseapp.Auth.Saml.Metadata.{
  is_encryption, remove_at, remove_if, remove_loop, remove_encryption, items,
}

abbrev pub IsPlain : KeyDescriptor → Type 0
IsPlain k = is_encryption k ≡ false

-- The last item of a list that starts with `x`.
last_of : KeyDescriptor → List KeyDescriptor → KeyDescriptor
last_of x [] = x
last_of x (y ∷ ys) = last_of y ys

drop-last_of :
    (x : KeyDescriptor) (xs : List KeyDescriptor) → drop (length xs) (x ∷ xs) ≡ last_of x xs ∷ []
unfolding last_of
drop-last_of x [] = refl
drop-last_of x (y ∷ ys) = drop-last_of y ys

last_of-IsPlain :
    (x : KeyDescriptor) (xs : List KeyDescriptor) → All IsPlain (x ∷ xs) → IsPlain (last_of x xs)
unfolding last_of
last_of-IsPlain x [] (p, h) = p
last_of-IsPlain x (y ∷ ys) (p, h) = last_of-IsPlain y ys h

drop-append : (n : ℕ) (xs ys : List KeyDescriptor) → drop (length xs + n) (xs ++ ys) ≡ drop n ys
drop-append n [] ys = ap (λ (m : ℕ). drop m ys) (omega arith)
drop-append n (x ∷ xs) ys =
    let m : suc (length xs) + n ≡ suc (length xs + n) = omega arith in rw m (drop-append n xs ys)

get_elem?-middle :
    (i : ℕ) (ys zs : List KeyDescriptor) (x : KeyDescriptor)
    → i ≡ length ys
    → get_elem? (ys ++ x ∷ zs) i ≡ some x
get_elem?-middle i ys zs x e = rw e (get_elem?-append ys (x ∷ zs))

step_plain :
    (rounds i : ℕ) (a : List KeyDescriptor) (n : ℕ) (x : KeyDescriptor)
    → get_elem? a i ≡ some x
    → IsPlain x
    → remove_loop (suc rounds) i (record { array = a; len = n })
      ≡ remove_loop rounds (i + 1) (record { array = a; len = n })
unfolding remove_loop remove_if
step_plain rounds i a n x e p = rw (e, p) refl

-- Rounds on plain keys change nothing.
skip :
    (m rounds i j n : ℕ) (ys xs zs a : List KeyDescriptor)
    → m ≡ length xs + rounds
    → i ≡ length ys
    → j ≡ length ys + length xs
    → a ≡ ys ++ (xs ++ zs)
    → All IsPlain xs
    → remove_loop m i (record { array = a; len = n })
      ≡ remove_loop rounds j (record { array = a; len = n })
skip m rounds i j n ys [] zs a l e f b h =
    let m' : m ≡ rounds = omega arith in let i' : i ≡ j = omega arith in rw (m', i') refl
skip zero rounds i j n ys (x ∷ xs) zs a l e f b h = absurd (omega arith)
skip (suc m) rounds i j n ys (x ∷ xs) zs a l e f b (p, h) =
    step_plain m i a n x (rw b (get_elem?-middle i ys (xs ++ zs) x e)) p
    ∙ skip m rounds (i + 1) j n (ys ++ x ∷ []) xs zs a (omega arith)
        (omega (arith, length-append ys (x ∷ []))) (omega (arith, length-append ys (x ∷ [])))
        (b ∙ sym (append_assoc ys (x ∷ []) (xs ++ zs))) h

take-length : (xs : List KeyDescriptor) → take (length xs) xs ≡ xs
take-length [] = refl
take-length (x ∷ xs) = ap (λ t. x ∷ t) (take-length xs)

-- Removing the key between `ys` and `zs` moves `zs` down; the last key stays in the array as well.
remove_at-middle :
    (i n m : ℕ) (ys zs : List KeyDescriptor) (x : KeyDescriptor)
    → i ≡ length ys
    → n ≡ length ys + suc (length zs)
    → m ≡ length ys + length zs
    → remove_at i (record { array = ys ++ x ∷ zs; len = n })
      ≡ some (record { array = ys ++ (zs ++ last_of x zs ∷ []); len = m })
unfolding remove_at
remove_at-middle i n m ys zs x e f g =
    let within : leb (i + 1) n ≡ true = ground arith in
    let front : take i (ys ++ x ∷ zs) ≡ ys = rw e (take-length-append ys (x ∷ zs)) in
    let i' : i + 1 ≡ length ys + 1 = omega arith in
    let behind : drop (i + 1) (ys ++ x ∷ zs) ≡ zs = rw i' (drop-append 1 ys (x ∷ zs)) in
    let count : n - (i + 1) ≡ length zs = omega arith in
    let n' : n - 1 ≡ length ys + length zs = omega arith in
    let end : drop (n - 1) (ys ++ x ∷ zs) ≡ last_of x zs ∷ [] =
      rw n' (drop-append (length zs) ys (x ∷ zs) ∙ drop-last_of x zs) in
    let m' : n - 1 ≡ m = omega arith in
    rw (within, front, behind, count, take-length zs, end, m') refl

removed :
    (rounds i n m : ℕ) (ys zs : List KeyDescriptor) (x : KeyDescriptor)
    → i ≡ length ys
    → n ≡ length ys + suc (length zs)
    → m ≡ length ys + length zs
    → is_encryption x ≡ true
    → remove_loop (suc rounds) i (record { array = ys ++ x ∷ zs; len = n })
      ≡ remove_loop rounds (i + 1) (record { array = ys ++ (zs ++ last_of x zs ∷ []); len = m })
unfolding remove_loop remove_if
removed rounds i n m ys zs x e f g p =
    rw (get_elem?-middle i ys zs x e, p, remove_at-middle i n m ys zs x e f g) refl

-- The rounds behind the removed key.
after_removal :
    (i m : ℕ) (ys zs : List KeyDescriptor) (x : KeyDescriptor)
    → i ≡ length ys + 1
    → All IsPlain zs
    → remove_loop (length zs) i (record { array = ys ++ (zs ++ last_of x zs ∷ []); len = m })
      ≡ some (record { array = ys ++ (zs ++ last_of x zs ∷ []); len = m })
unfolding remove_loop last_of
after_removal i m ys [] x e h = refl
after_removal i m ys (z ∷ zs) x e (p, h) =
    let l = last_of-IsPlain z zs (p, h) in
    let n = length-append zs (last_of z zs ∷ []) in
    skip (suc (length zs)) 0 i (i + suc (length zs)) m (ys ++ z ∷ []) (zs ++ last_of z zs ∷ []) []
      (ys ++ (z ∷ zs ++ last_of z zs ∷ [])) (omega (arith, n))
      (omega (arith, e, length-append ys (z ∷ []))) (omega (arith, e, n, length-append ys (z ∷ [])))
      (rw (append-nil (zs ++ last_of z zs ∷ []))
        (sym (append_assoc ys (z ∷ []) (zs ++ last_of z zs ∷ []))))
      (All-append IsPlain zs (last_of z zs ∷ []) h (l, _))

-- One encryption key among plain ones is removed, and nothing else.
pub remove_one :
    (ys zs : List KeyDescriptor) (x : KeyDescriptor)
    → All IsPlain ys
    → All IsPlain zs
    → is_encryption x ≡ true
    → remove_encryption (ys ++ x ∷ zs) ≡ some (ys ++ zs)
unfolding remove_encryption items
remove_one ys zs x h k p =
    let n = length (ys ++ x ∷ zs) in
    let l : n ≡ length ys + suc (length zs) = length-append ys (x ∷ zs) in
    let m = length ys + length zs in
    let run =
      skip n (suc (length zs)) 0 (length ys) n [] ys (x ∷ zs) (ys ++ x ∷ zs) l refl (omega arith)
        refl h
      ∙ removed (length zs) (length ys) n m ys zs x refl l refl p
      ∙ after_removal (length ys + 1) m ys zs x refl k in
    let kept : take m (ys ++ (zs ++ last_of x zs ∷ [])) ≡ ys ++ zs =
      rw (sym (length-append ys zs), sym (append_assoc ys zs (last_of x zs ∷ [])))
        (take-length-append (ys ++ zs) (last_of x zs ∷ [])) in
    rw run (ap some kept)

pub remove_none : (ys : List KeyDescriptor) → All IsPlain ys → remove_encryption ys ≡ some ys
unfolding remove_encryption items remove_loop
remove_none ys h =
    let run =
      skip (length ys) 0 0 (length ys) (length ys) [] ys [] ys (omega arith) refl (omega arith)
        (sym (append-nil ys)) h in
    rw run (ap some (take-length ys))

-- An encryption key that stands at or behind the end of the slice cannot be cut out of it.
beyond :
    (i n : ℕ) (a : List KeyDescriptor) (x : KeyDescriptor)
    → get_elem? a i ≡ some x
    → is_encryption x ≡ true
    → n ≤ i
    → remove_loop 1 i (record { array = a; len = n }) ≡ none
unfolding remove_loop remove_if remove_at
beyond i n a x e p h = let out : leb (i + 1) n ≡ false = ground arith in rw (e, p, out) refl

-- Two encryption keys at the end: the second one has moved out of the slice that is cut.
remove_two :
    (ys : List KeyDescriptor) (x y : KeyDescriptor)
    → All IsPlain ys
    → is_encryption x ≡ true
    → is_encryption y ≡ true
    → remove_encryption (ys ++ x ∷ y ∷ []) ≡ none
unfolding remove_encryption items last_of
remove_two ys x y h p q =
    let l = length ys in
    let n = length (ys ++ x ∷ y ∷ []) in
    let k : n ≡ l + 2 = length-append ys (x ∷ y ∷ []) in
    let run =
      skip n 2 0 l n [] ys (x ∷ y ∷ []) (ys ++ x ∷ y ∷ []) k refl (omega arith) refl h
      ∙ removed 1 l n (l + 1) ys (y ∷ []) x refl k refl p
      ∙ beyond (l + 1) (l + 1) (ys ++ y ∷ y ∷ []) y
          (rw (sym (append_assoc ys (y ∷ []) (y ∷ [])))
            (get_elem?-middle (l + 1) (ys ++ y ∷ []) [] y (sym (length-append ys (y ∷ [])))))
          q (omega arith) in
    rw run refl
