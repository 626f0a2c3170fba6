-- ===== src/File/Sizes.antt =====
-- The size that an FSFile (src/storage/FSFile.cpp) remembers, against the file's contents.
use database_systems.Common.{
  subst, option-Ensures_eq, then-Ensures, ℕ, ◌+◌, ◌%◌, ◌≤◌, ◌<◌, false, not, List, ◌++◌, Option,
  none, some, throws, Result, ◌*◌, length, take, drop, replicate, ltb, ◌==◌, ok, fatal, ◌>>=◌,
  Ensures, check, ◌≡◌, ◌⊎◌, inl, inr, refl, arith, sym, ◌∙◌, ap, length-append, length-take,
  length-replicate, Bool-cases,
}
use database_systems.File.System.{System, not_supported}
use database_systems.File.Calls.{
  zeros_at, FsFile, no_size, file_size, write_file, write_zeros, through_int, allocate,
}
use database_systems.Common.{
  overwrite, length-overwrite, take-overwrite, drop-overwrite, overwrite_end, take-replicate,
}

-- What the documentation of the calls promises: the files' contents, by their descriptors, and how
-- the calls read and change them. A write within the file or at its end transfers the first `k` bytes.
pub record Laws (system : System) : Type 0 where
  pub contents : system.World → ℕ → List ℕ
  pub fstat_law :
      (fd : ℕ) (w : system.World) → system.os_fstat_size fd w ≡ some (length (contents w fd))
  pub pwrite_law :
      (fd : ℕ) (bytes : List ℕ) (offset k : ℕ) (w : system.World)
      → offset ≤ length (contents w fd)
      → (system.os_pwrite fd bytes offset w).0 ≡ some k
      → (k ≤ length bytes)
        × (contents (system.os_pwrite fd bytes offset w).1 fd
            ≡ overwrite (contents w fd) offset (take k bytes))
  pub fallocate_law :
      (fd offset count : ℕ) (w : system.World)
      → (system.os_fallocate fd offset count w).0 ≡ not_supported
      → contents (system.os_fallocate fd offset count w).1 fd ≡ contents w fd

module _ (system : System) (page_size : ℕ) (laws : Laws system) where
  open system use {World}
  open laws use {contents}

  -- The size is not remembered, or it is that of the file.
  abbrev pub IsAccurate : FsFile → World → Type 0
  IsAccurate f w = (f.size ≡ no_size) ⊎ (f.size ≡ length (contents w f.fd))

  -- `Size` gives it.
  file_size-accurate :
      (f : FsFile) (w : World)
      → IsAccurate f w
      → file_size system page_size f w ≡ ok (length (contents w f.fd))
  unfolding file_size
  file_size-accurate f w h = elim (Bool-cases (f.size == no_size)) [
    | inl unknown ↦ rw (unknown, laws.fstat_law f.fd w) refl
    | inr known ↦ rw known (same h known)
  ]
    where
      same :
          IsAccurate f w → (f.size == no_size) ≡ false → ok f.size ≡ ok (length (contents w f.fd))
      same (inl e) k = absurd (ground (arith, e, k))
      same (inr e) k = ap ok e

  -- A write that stays within the file, as the header of the class demands. The size that is
  -- remembered stays right, and of the file's bytes only those that are written to can change.
  pub write_file-within :
      (f : FsFile) (bytes : List ℕ) (offset : ℕ) (w : World)
      → IsAccurate f w
      → offset + length bytes ≤ length (contents w f.fd)
      → Ensures
          (λ w'.
            IsAccurate f w'
            × (take offset (contents w' f.fd) ≡ take offset (contents w f.fd))
            × (drop (offset + length bytes) (contents w' f.fd)
                ≡ drop (offset + length bytes) (contents w f.fd)))
          (write_file system page_size f bytes offset w)
  unfolding write_file
  write_file-within f bytes offset w accurate h = rw (file_size-accurate f w accurate) (
      then-Ensures Kept (check (not (length (contents w f.fd) == 0)) fatal) _ λ _.
        then-Ensures Kept (check (ltb offset (length (contents w f.fd))) fatal) _ λ _.
          then-Ensures Kept (check (offset % page_size == 0) fatal) _ λ _.
            option-Ensures_eq Kept (system.os_pwrite f.fd bytes offset w).0 _ _ tt λ k e. kept k e)
    where
      Kept : World → Type 0
      Kept w' =
          IsAccurate f w'
          × (take offset (contents w' f.fd) ≡ take offset (contents w f.fd))
          × (drop (offset + length bytes) (contents w' f.fd)
              ≡ drop (offset + length bytes) (contents w f.fd))

      w' : World
      w' = (system.os_pwrite f.fd bytes offset w).1

      kept : (k : ℕ) → (system.os_pwrite f.fd bytes offset w).0 ≡ some k → Kept w'
      kept k e =
          let law = laws.pwrite_law f.fd bytes offset k w (omega arith) e in
          let short : length (take k bytes) ≤ length bytes = omega (arith, length-take k bytes) in
          (
            elim accurate [
              | inl unknown ↦ inl unknown
              | inr known ↦ inr (
                  known
                  ∙ sym (
                      ap length law.1
                      ∙ length-overwrite (contents w f.fd) (take k bytes) offset (omega arith)))
            ],
            ap (take offset) law.1
                ∙ take-overwrite (contents w f.fd) (take k bytes) offset (omega arith),
            ap (drop (offset + length bytes)) law.1
                ∙ drop-overwrite (contents w f.fd) (take k bytes) offset (length bytes)
                    (omega arith) short,
          )

  through_int_small : (n : ℕ) → n < 2147483648 → through_int n ≡ n
  unfolding through_int
  through_int_small n h = ground arith

  -- What comes of the write of `count` zeros at the end of a file with the bytes `old`, in the
  -- world `before`: a fatal error if it fails, and otherwise the file has as many zeros more as it
  -- reports, and its size is remembered.
  abbrev pub Extended : FsFile → ℕ → List ℕ → World → Result (FsFile × World) → Type 0
  Extended f count old before res =
      let written = system.os_pwrite f.fd (replicate count 0) (length old) before in
      ((written.0 ≡ none) × (res ≡ throws fatal))
      ⊎ ((k : ℕ) × (r : FsFile × World) × (written.0 ≡ some k)
          × (k ≤ count)
          × (res ≡ ok r)
          × (contents r.1 f.fd ≡ old ++ replicate k 0)
          × (r.0.size ≡ length (contents r.1 f.fd)))

  zeros_at-Extended :
      (f : FsFile) (count : ℕ) (w : World)
      → count ≤ 8 * page_size
      → length (contents w f.fd) + count < 2147483648
      → Extended f count
          (contents w f.fd)
          w
          (zeros_at system page_size f count (length (contents w f.fd)) w)
  unfolding zeros_at
  zeros_at-Extended f count w covered h = rw in_buffer (go written.0 refl)
    where
      in_buffer : ltb (8 * page_size) count ≡ false
      in_buffer = ground arith

      written : Option ℕ × World
      written = system.os_pwrite f.fd (replicate count 0) (length (contents w f.fd)) w

      go :
          (o : Option ℕ)
          → written.0 ≡ o
          → Extended f count (contents w f.fd) w (elim written.0 [
            | none ↦ throws fatal
            | some k ↦ do
              m ← file_size system page_size (record f { size = no_size }) written.1
              ok (record f { size = through_int m }, written.1)
          ])
      go none e = inl (e, rw e refl)
      go (some k) e =
          let law =
            laws.pwrite_law f.fd (replicate count 0) (length (contents w f.fd)) k w (omega arith)
              e in
          let fits : k ≤ count = omega (arith, law.0, length-replicate {A = ℕ} count 0) in
          let now : contents written.1 f.fd ≡ contents w f.fd ++ replicate k 0 =
            law.1
            ∙ overwrite_end (contents w f.fd) (take k (replicate count 0))
            ∙ ap (λ l. contents w f.fd ++ l) (take-replicate k count 0 fits) in
          let small : length (contents written.1 f.fd) < 2147483648 = omega (
            arith,
            ap length now,
            length-append (contents w f.fd) (replicate k 0),
            length-replicate {A = ℕ} k 0,
          ) in
          inr (
            k,
            (record f { size = through_int (length (contents written.1 f.fd)) }, written.1),
            e,
            fits,
            rw (e, file_size-accurate (record f { size = no_size }) written.1 (inl refl)) refl,
            now,
            through_int_small (length (contents written.1 f.fd)) small,
          )

  write_zeros-end :
      (f : FsFile) (count : ℕ) (w : World)
      → IsAccurate f w
      → length (contents w f.fd) < 2147483648
      → write_zeros system page_size f count w
        ≡ zeros_at system page_size f count (length (contents w f.fd)) w
  unfolding write_zeros
  write_zeros-end f count w accurate h = rw (file_size-accurate f w accurate) (
      ap (λ o. zeros_at system page_size f count o w)
        (through_int_small (length (contents w f.fd)) h))

  write_zeros-Extended :
      (f : FsFile) (count : ℕ) (w : World)
      → IsAccurate f w
      → count ≤ 8 * page_size
      → length (contents w f.fd) + count < 2147483648
      → Extended f count (contents w f.fd) w (write_zeros system page_size f count w)
  write_zeros-Extended f count w accurate covered h =
      subst (Extended f count (contents w f.fd) w)
        (sym (write_zeros-end f count w accurate (omega arith)))
        (zeros_at-Extended f count w covered h)

  -- The world behind the call of fallocate(2).
  abbrev pub tried : FsFile → ℕ → World → World
  tried f count w = (system.os_fallocate f.fd (length (contents w f.fd)) count w).1

  -- `Allocate` where fallocate(2) is not supported, for at most 8 pages and a file that stays
  -- smaller than 2 ^ 31 bytes. It calls pwrite(2) for `count` zeros at the end of the file. If that
  -- fails, Allocate throws a fatal error. Otherwise it returns, the file keeps its bytes and has
  -- behind them as many zeros as pwrite(2) reports, and its size is remembered as it is then.
  pub allocate_by_zeros :
      (f : FsFile) (count : ℕ) (w : World)
      → IsAccurate f w
      → (system.os_fallocate f.fd (length (contents w f.fd)) count w).0 ≡ not_supported
      → count ≤ 8 * page_size
      → length (contents w f.fd) + count < 2147483648
      → Extended f count (contents w f.fd) (tried f count w) (allocate system page_size f count w)
  unfolding allocate
  allocate_by_zeros f count w accurate refused covered h =
      rw (file_size-accurate f w accurate, refused)
        (subst
          (λ old.
            Extended f count old (tried f count w)
              (write_zeros system page_size f count (tried f count w)))
          unchanged
          (write_zeros-Extended f count (tried f count w) still_accurate covered
            (omega (arith, ap length unchanged))))
    where
      unchanged : contents (tried f count w) f.fd ≡ contents w f.fd
      unchanged = laws.fallocate_law f.fd (length (contents w f.fd)) count w refused

      still_accurate : IsAccurate f (tried f count w)
      still_accurate = elim accurate [
        | inl unknown ↦ inl unknown
        | inr known ↦ inr (known ∙ ap length (sym unchanged))
      ]
