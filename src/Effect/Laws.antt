-- ===== src/Effect/Laws.antt =====
-- What code leaves alone: a view of the state that a computation keeps, however it ends.
use quinn_ffi.Prelude.{◌≡◌, refl, ◌∙◌, Bool, true, false, if◌then◌else◌}
use quinn_ffi.Effect.{M, Exit, ok, err, panic, hang, undefined, bind_exit, ◌>>=◌, when}

module _ {S X : Type 0} (view : S → X) where
  abbrev pub Keeps : {A : Type 0} → M S A → Type 0
  Keeps m = (s : S) → view (m s).1 ≡ view s

  bind_exit-Keeps :
      {A B : Type 0} (f : A → M S B) (e : Exit A) (s : S)
      → ((a : A) → Keeps (f a))
      → view (bind_exit f e s).1 ≡ view s
  bind_exit-Keeps f (ok a) s h = h a s
  bind_exit-Keeps f (err e) s h = refl
  bind_exit-Keeps f (panic p) s h = refl
  bind_exit-Keeps f hang s h = refl
  bind_exit-Keeps f undefined s h = refl

  pub >>=-Keeps :
      {A B : Type 0} (m : M S A) (f : A → M S B)
      → Keeps m
      → ((a : A) → Keeps (f a))
      → Keeps (m >>= f)
  >>=-Keeps m f hm hf s = bind_exit-Keeps f (m s).0 (m s).1 hf ∙ hm s

  pub when-Keeps : (b : Bool) (m : M S (Unit {0})) → Keeps m → Keeps (when b m)
  when-Keeps true m h s = h s
  when-Keeps false m h s = refl

-- What code preserves: a property of the state that holds afterwards, however it ends.
module _ {S : Type 0} (I : S → Type 0) where
  abbrev pub Preserves : {A : Type 0} → M S A → Type 0
  Preserves m = (s : S) → I s → I (m s).1

  bind_exit-Preserves :
      {A B : Type 0} (f : A → M S B) (e : Exit A) (s : S)
      → ((a : A) → Preserves (f a))
      → I s
      → I (bind_exit f e s).1
  bind_exit-Preserves f (ok a) s h i = h a s i
  bind_exit-Preserves f (err e) s h i = i
  bind_exit-Preserves f (panic p) s h i = i
  bind_exit-Preserves f hang s h i = i
  bind_exit-Preserves f undefined s h i = i

  pub >>=-Preserves :
      {A B : Type 0} (m : M S A) (f : A → M S B)
      → Preserves m
      → ((a : A) → Preserves (f a))
      → Preserves (m >>= f)
  >>=-Preserves m f hm hf s i = bind_exit-Preserves f (m s).0 (m s).1 hf (hm s i)

  pub when-Preserves : (b : Bool) (m : M S (Unit {0})) → Preserves m → Preserves (when b m)
  when-Preserves true m h s i = h s i
  when-Preserves false m h s i = i

  -- Both ways of a test preserve the property: of code, and of what code has come to.
  pub if-Preserves :
      {A : Type 0} (b : Bool) (m n : M S A)
      → Preserves m
      → Preserves n
      → Preserves (if b then m else n)
  if-Preserves true m n h k = h
  if-Preserves false m n h k = k

  pub if-ends :
      {A : Type 0} (b : Bool) (x y : Exit A × S) → I x.1 → I y.1 → I (if b then x else y).1
  if-ends true x y i j = i
  if-ends false x y i j = j
