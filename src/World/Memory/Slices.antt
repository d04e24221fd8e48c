-- ===== src/World/Memory/Slices.antt =====
-- What is written through the slices of src/ffi/reference.rs and src/ffi/out.rs, and read back.
use quinn_ffi.Prelude.{
  ℕ, min, ◌+◌, ◌≡◌, ◌≢◌, ◌≤◌, refl, ap, subst, some, List, [], ◌∷◌, ◌++◌, length, take, drop,
  insert, lookup, arith, lookup-insert_self, lookup-insert_ne, length-append, length-take, leb, suc,
  true,
}
use quinn_ffi.Effect.{ok}
use quinn_ffi.Proto.{Proto}
use quinn_ffi.World.{World}
use quinn_ffi.World.Memory.{init, write_bytes, as_bytes, as_bytes_mut, map_from}

length-map_from : (f : ℕ → ℕ → ℕ) (n : ℕ) (xs : List ℕ) → length (map_from f n xs) ≡ length xs
unfolding map_from
length-map_from f n [] = refl
length-map_from f n (x ∷ xs) = ap suc (length-map_from f (n + 1) xs)

take-append : (xs ys : List ℕ) → take (length xs) (xs ++ ys) ≡ xs
take-append [] ys = refl
take-append (x ∷ xs) ys = ap (◌∷◌ x) (take-append xs ys)

leb_lem : (a b : ℕ) → a ≤ b → leb a b ≡ true
leb_lem a b h = ground arith

-- The first bytes of a buffer that starts with them.
pub as_bytes-append :
    {P : Proto} (p : ℕ) (xs ys : List ℕ) (w : World P)
    → lookup p w.buffers ≡ some (xs ++ ys)
    → as_bytes p (length xs) w ≡ (ok xs, w)
unfolding as_bytes
as_bytes-append p xs ys w h =
    rw
      (
        h,
        as_bytes,
        leb_lem (length xs) (length (xs ++ ys)) (omega (arith, length-append xs ys)),
        take-append xs ys,
      )
      refl

module _ {P : Proto} where
  -- What is written through a mutable slice is what a slice of the same memory reads; the bytes behind it
  -- and the other buffers stay as they were.
  pub as_bytes_mut-as_bytes :
      (p q len : ℕ) (f : ℕ → ℕ → ℕ) (buf : List ℕ) (w : World P)
      → lookup p w.buffers ≡ some buf
      → len ≤ length buf
      → p ≢ q
      → let (x, w') = as_bytes_mut p len f w in
        let written : List ℕ = map_from f 0 (take len buf) in
        (x ≡ ok tt)
        × (as_bytes p len w' ≡ (ok written, w'))
        × (lookup p w'.buffers ≡ some (written ++ drop len buf))
        × (lookup q w'.buffers ≡ lookup q w.buffers)
  unfolding as_bytes_mut
  as_bytes_mut-as_bytes p q len f buf w h l n =
      let written : List ℕ = map_from f 0 (take len buf) in
      let w' : World P = record w { buffers = insert p (written ++ drop len buf) w.buffers } in
      let there : lookup p w'.buffers ≡ some (written ++ drop len buf) =
        lookup-insert_self p (written ++ drop len buf) w.buffers in
      let all : length written ≡ len =
        omega (arith, length-map_from f 0 (take len buf), length-take len buf) in
      rw (h, as_bytes_mut, leb_lem len (length buf) l)
        (
          refl,
          subst (λ k. as_bytes p k w' ≡ (ok written, w')) all
              (as_bytes-append p written (drop len buf) w' there),
          there,
          lookup-insert_ne q p (written ++ drop len buf) w.buffers n,
        )

  -- A word is written where one stands.
  pub init-writes :
      (p x a : ℕ) (v : World P)
      → lookup p v.words ≡ some a
      → init p x v ≡ (ok tt, record v { words = insert p x v.words })
  unfolding init
  init-writes p x a v h = rw (h, init) refl

  -- What fits is copied to the front of the buffer.
  pub write_bytes-fits :
      (p len : ℕ) (value mem : List ℕ) (w : World P)
      → lookup p w.buffers ≡ some mem
      → len ≤ length mem
      → write_bytes p len value w ≡ (
        ok (min len (length value)),
        record w {
          buffers = insert p (take len value ++ drop (min len (length value)) mem) w.buffers;
        },
      )
  unfolding write_bytes
  write_bytes-fits p len value mem w h l = rw (h, write_bytes, leb_lem len (length mem) l) refl
