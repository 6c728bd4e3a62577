-- ===== src/Prelude/Sublists.antt =====
-- Lists that keep some of the items of another in order.
use mathlib.Core.Path.{refl, ◌∙◌}
use mathlib.Core.List.{List, [], ◌∷◌, ◌++◌, Sublistᴰ}
use mathlib.Core.List.Sublistᴰ.{slnil, cons, cons-cons}

module _ {ℓ} {A : Type ℓ} where
  -- `xs` is `ys` with some items left out.
  abbrev pub IsSublist : List A → List A → Type ℓ
  IsSublist xs ys = Sublistᴰ xs ys

  pub IsSublist_refl : (xs : List A) → IsSublist xs xs
  IsSublist_refl [] = slnil
  IsSublist_refl (x ∷ xs) = cons-cons refl (IsSublist_refl xs)

  IsSublist_below :
      {ys zs : List A} → IsSublist ys zs → (xs : List A) → IsSublist xs ys → IsSublist xs zs
  IsSublist_below slnil xs h = h
  IsSublist_below (cons k) xs h = cons (IsSublist_below k xs h)
  IsSublist_below (cons-cons e k) xs (cons h) = cons (IsSublist_below k xs h)
  IsSublist_below (cons-cons e k) (x ∷ xs) (cons-cons d h) =
      cons-cons (d ∙ e) (IsSublist_below k xs h)

  pub IsSublist_trans : {xs ys zs : List A} → IsSublist xs ys → IsSublist ys zs → IsSublist xs zs
  IsSublist_trans {xs} h k = IsSublist_below k xs h

  pub IsSublist_nil : (xs : List A) → IsSublist [] xs
  IsSublist_nil [] = slnil
  IsSublist_nil (x ∷ xs) = cons (IsSublist_nil xs)

  pub IsSublist-append :
      {xs ys us vs : List A} → IsSublist xs ys → IsSublist us vs → IsSublist (xs ++ us) (ys ++ vs)
  IsSublist-append slnil k = k
  IsSublist-append (cons h) k = cons (IsSublist-append h k)
  IsSublist-append (cons-cons e h) k = cons-cons e (IsSublist-append h k)

  pub IsSublist_more : {xs ys : List A} (zs : List A) → IsSublist xs ys → IsSublist xs (ys ++ zs)
  IsSublist_more zs slnil = IsSublist_nil zs
  IsSublist_more zs (cons h) = cons (IsSublist_more zs h)
  IsSublist_more zs (cons-cons e h) = cons-cons e (IsSublist_more zs h)

  -- What is appended may be left out.
  pub IsSublist_left : (xs ys : List A) {zs : List A} → IsSublist (xs ++ ys) zs → IsSublist xs zs
  IsSublist_left xs ys h = IsSublist_trans (IsSublist_more ys (IsSublist_refl xs)) h

  pub IsSublist_drop : {xs ys : List A} (y : A) → IsSublist xs ys → IsSublist xs (y ∷ ys)
  IsSublist_drop y h = cons h
