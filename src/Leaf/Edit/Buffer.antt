-- ===== src/Leaf/Edit/Buffer.antt =====
-- The buffer of `update_value_trivially` and the page around it, as lists of bytes: `fs` in front of
-- the value length, `ls` the old length field, `vs` the old value, `rs` the entries behind it, `k`
-- zeros, and the new value `ns`.
use diskmap_cpp.Common.{
  ℕ, zero, ◌+◌, ◌-◌, ◌≤◌, ◌≡◌, refl, ap, ◌∙◌, List, [], ◌++◌, arith, length, take, drop, replicate,
  append_assoc, length-append, length-replicate, length-take, length-drop, take-length_append,
  drop-length_append, take_behind, drop_behind, drop-replicate, take-replicate, drop_add, eq-nil,
}
use diskmap_cpp.Bytes.{le_bytes, length-le_bytes, take-le_bytes}
use diskmap_cpp.Leaf.{splice}
use diskmap_cpp.Leaf.Edit.{update_buffer}

splice_tail :
    (xs ys : List ℕ) (n : ℕ)
    → n ≤ length xs
    → drop n (splice xs n ys) ≡ ys ++ drop (n + length ys) xs
unfolding splice
splice_tail xs ys n h =
    drop_behind (take n xs) (ys ++ drop (n + length ys) xs) n 0 (omega (arith, length-take n xs h))

-- The new length field and the new value, written over what was there.
over_lengths :
    (xs : List ℕ) (v : ℕ) (ns : List ℕ)
    → splice (splice xs 0 (le_bytes 8 v)) 8 ns ≡ le_bytes 8 v ++ (ns ++ drop (8 + length ns) xs)
unfolding splice
over_lengths xs v ns = rw (
  take-le_bytes 8 v (drop (0 + length (le_bytes 8 v)) xs),
  drop_behind (le_bytes 8 v) (drop (0 + length (le_bytes 8 v)) xs) (8 + length ns) (length ns)
      (omega (arith, length-le_bytes 8 v)),
  length-le_bytes 8 v,
  drop_add 8 (length ns) xs,
)

module _ (fs ls vs rs ns : List ℕ) (k : ℕ) (eight : length ls ≡ 8) where
  abbrev pub page : List ℕ
  page = fs ++ (ls ++ (vs ++ (rs ++ replicate k 0)))

  -- How far the update reaches into the zeros.
  abbrev pub grown : ℕ
  grown = length ns - length vs

  abbrev pub old_bytes : List ℕ
  old_bytes = ls ++ (vs ++ (rs ++ replicate grown 0))

  -- Where the new value is shorter, the end of the old bytes stays behind the entries.
  abbrev pub stale : List ℕ
  stale = drop (8 + length ns + length rs) old_bytes

  length-old : length old_bytes ≡ 8 + length vs + length rs + grown
  length-old = omega (
    arith,
    eight,
    length-append ls (vs ++ (rs ++ replicate grown zero)),
    length-append vs (rs ++ replicate grown zero),
    length-append rs (replicate grown zero),
    length-replicate grown zero,
  )

  old-page :
      grown ≤ k
      → (n : ℕ) → n ≡ 8 + length vs + length rs + grown
      → take n (drop (length fs) page) ≡ old_bytes
  old-page fits n h = rw (
    drop-length_append fs (ls ++ (vs ++ (rs ++ replicate k 0))),
    take_behind ls (vs ++ (rs ++ replicate k 0)) n (length vs + length rs + grown)
        (omega (arith, eight)),
    take_behind vs (rs ++ replicate k 0) (length vs + length rs + grown) (length rs + grown)
        (omega arith),
    take_behind rs (replicate k 0) (length rs + grown) grown refl,
    take-replicate grown k zero fits,
  )

  -- The entries behind the old value.
  source : take (length rs) (drop (8 + length vs) old_bytes) ≡ rs
  source = rw (
    drop_behind ls (vs ++ (rs ++ replicate grown 0)) (8 + length vs) (length vs)
        (omega (arith, eight)),
    drop-length_append vs (rs ++ replicate grown 0),
    take-length_append rs (replicate grown 0),
  )

  abbrev moved : List ℕ
  moved = splice old_bytes (8 + length ns) (take (length rs) (drop (8 + length vs) old_bytes))

  moved_tail : drop (8 + length ns) moved ≡ rs ++ stale
  moved_tail =
      splice_tail old_bytes _ (8 + length ns) (omega (arith, length-old))
      ∙ ap (λ ys. ys ++ drop (8 + length ns + length ys) old_bytes) source

  update_buffer-eq :
      update_buffer old_bytes (length vs) (length rs) ns
      ≡ le_bytes 8 (length ns) ++ (ns ++ (rs ++ stale))
  unfolding update_buffer
  update_buffer-eq =
      over_lengths moved (length ns) ns ∙ ap (λ t. le_bytes 8 (length ns) ++ (ns ++ t)) moved_tail

  length-buffer :
      length (le_bytes 8 (length ns) ++ (ns ++ (rs ++ stale))) ≡ 8 + length vs + length rs + grown
  length-buffer = omega (
    arith,
    length-append (le_bytes 8 (length ns)) (ns ++ (rs ++ stale)),
    length-append ns (rs ++ stale),
    length-append rs stale,
    length-le_bytes 8 (length ns),
    length-drop (8 + length ns + length rs) old_bytes,
    length-old,
  )

  behind_buffer :
      drop (length fs + (8 + length vs + length rs + grown)) page ≡ replicate (k - grown) 0
  behind_buffer = rw (
    drop_behind fs (ls ++ (vs ++ (rs ++ replicate k 0))) _ (8 + length vs + length rs + grown) refl,
    drop_behind ls (vs ++ (rs ++ replicate k 0)) (8 + length vs + length rs + grown)
        (length vs + length rs + grown) (omega (arith, eight)),
    drop_behind vs (rs ++ replicate k 0) (length vs + length rs + grown) (length rs + grown)
        (omega arith),
    drop_behind rs (replicate k 0) (length rs + grown) grown refl,
    drop-replicate grown k zero,
  )

  written :
      splice page (length fs) (le_bytes 8 (length ns) ++ (ns ++ (rs ++ stale)))
      ≡ fs ++ (le_bytes 8 (length ns) ++ (ns ++ (rs ++ (stale ++ replicate (k - grown) 0))))
  unfolding splice
  written =
      rw (take-length_append fs (ls ++ (vs ++ (rs ++ replicate k 0))), length-buffer, behind_buffer)
        (simp append_assoc)

  -- The page after the update, in front of it the page before it.
  pub update_page :
      grown ≤ k
      → (c : List ℕ) (start n moved : ℕ) → c ≡ page
      → start ≡ length fs
      → n ≡ 8 + length vs + length rs + grown
      → moved ≡ length rs
      → splice c start (update_buffer (take n (drop start c)) (length vs) moved ns)
        ≡ fs ++ (le_bytes 8 (length ns) ++ (ns ++ (rs ++ (stale ++ replicate (k - grown) 0))))
  update_page fits c start n moved ec est en emoved =
      rw (ec, est, emoved, old-page fits n en, update_buffer-eq) written

  -- Where the value does not shrink nothing is stale.
  pub stale-grown : length vs ≤ length ns → stale ≡ []
  stale-grown h =
      eq-nil stale (omega (arith, length-drop (8 + length ns + length rs) old_bytes, length-old))
