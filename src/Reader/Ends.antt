-- ===== src/Reader/Ends.antt =====
-- A program that calls InitDataFileReader::next (src/catalog/InitDataFileReader.cpp) again and again
-- comes to the end of the file or to an error.
use database_systems.Common.{
  ◌^◌, ◌%◌, some_inj, subst, ℕ, zero, suc, ◌+◌, ◌<◌, ◌==◌, Bool, true, false, List, [], ◌∷◌, none,
  some, length, Result, ok, Ensures, >>=-Ensures, ◌>>=◌, ◌≡◌, ◌⊎◌, inl, inr, refl, arith,
  Bool-cases, Option-cases, ◌||◌, if◌then◌else◌,
}
use database_systems.Reader.State.{
  Services, Reader, Step, is_final, getline, split_line, Stream, eof, error,
}
use database_systems.Common.{Ensures-imp}
use database_systems.Reader.Next.{read_line, use_line, next}
use database_systems.Reader.Termination.{read_line-KeepsInput}

split_line-shrinks : (l rest : List ℕ) → (split_line l).1 ≡ some rest → length rest < length l
unfolding split_line
split_line-shrinks [] rest e = cc e
split_line-shrinks (c ∷ cs) rest e = elim (Bool-cases (c == 10)) [
  | inl newline ↦ subst (λ o. length o < suc (length cs)) (some_inj (rw newline at e)) (omega arith)
  | inr other ↦ omega (arith, split_line-shrinks cs rest (rw other at e))
]

getline-shrinks : (s : Stream) → ((getline s).0 ≡ []) ⊎ (length (getline s).1.left < length s.left)
unfolding getline
getline-shrinks s = elim (Bool-cases (s.eofbit || s.failbit)) [
  | inl over ↦ inl (rw over refl)
  | inr good ↦ rw good (elim (Option-cases (split_line s.left).1) [
    | inl last ↦ rw last (last_line s.left)
    | inr (rest, e) ↦ rw e (inr (split_line-shrinks s.left rest e))
  ])
]
  where
    last_line : (l : List ℕ) → (l ≡ []) ⊎ (0 < length l)
    last_line [] = inl refl
    last_line (c ∷ cs) = inr (omega arith)

module _ (services : Services) where
  abbrev Shrinks : ℕ → Step → Type 0
  Shrinks n st = (is_final st.0.last_state ≡ true) ⊎ (length st.0.input.left < n)

  use_line-Shrinks :
      (n : ℕ) (r : Reader) (line : List ℕ)
      → (line ≡ []) ⊎ (length r.input.left < n)
      → Ensures (Shrinks n) (use_line services r line)
  unfolding use_line
  use_line-Shrinks n r [] h = inl (ended r.input.eofbit)
    where
      ended : (b : Bool) → is_final (if b then eof else error) ≡ true
      ended true = refl
      ended false = refl
  use_line-Shrinks n r (c ∷ cs) (inl e) = cc e
  use_line-Shrinks n r (c ∷ cs) (inr k) =
      Ensures-imp _ (Shrinks n) (read_line services r (c ∷ cs)) (λ st same. inr (rw same k))
        (read_line-KeepsInput services r (c ∷ cs))

  next-Shrinks : (r : Reader) → Ensures (Shrinks (length r.input.left)) (next services r)
  unfolding next
  next-Shrinks r = elim (Bool-cases (is_final r.last_state)) [
    | inl final ↦ rw final (inl final)
    | inr going ↦ rw going (
        use_line-Shrinks (length r.input.left)
          (record r { input = (getline r.input).1; lineno = (r.lineno + 1) % 2 ^ 64 })
          (getline r.input).0 (getline-shrinks r.input))
  ]

  -- `n` calls, one after the other.
  unfoldable pub call_next : ℕ → Reader → Result Reader
  unfolding next
  call_next zero r = ok r
  call_next (suc n) r = next services r >>= λ st. call_next n st.0

  next_final : (r : Reader) → is_final r.last_state ≡ true → next services r ≡ ok (r, none)
  unfolding next
  next_final r e = rw e refl

  call_next_final : (n : ℕ) (r : Reader) → is_final r.last_state ≡ true → call_next n r ≡ ok r
  unfolding call_next
  call_next_final zero r e = refl
  call_next_final (suc n) r e = rw (next_final r e) (call_next_final n r e)

  abbrev pub IsEnded : Reader → Type 0
  IsEnded r = is_final r.last_state ≡ true

  call_next-IsEnded_from :
      (n : ℕ) (r : Reader) → length r.input.left < n → Ensures IsEnded (call_next n r)
  unfolding call_next
  call_next-IsEnded_from zero r h = elim h [ ]
  call_next-IsEnded_from (suc n) r h =
      >>=-Ensures (Shrinks (length r.input.left)) _ (next services r) (λ st. call_next n st.0)
        (next-Shrinks r)
        λ st progress. elim progress [
          | inl final ↦ rw (call_next_final n st.0 final) final
          | inr less ↦ call_next-IsEnded_from n st.0 (omega arith)
        ]

  -- After one call more than there are bytes left in the file, unless a call throws or comes to
  -- undefined behaviour, the reader is at the end of the file or has refused a line, and every
  -- further call changes nothing and gives the same answer.
  pub call_next-IsEnded :
      (r : Reader) (further : ℕ)
      → Ensures
          (λ r'. IsEnded r' × (call_next further r' ≡ ok r'))
          (call_next (length r.input.left + 1) r)
  call_next-IsEnded r further =
      Ensures-imp IsEnded _ (call_next (length r.input.left + 1) r)
        (λ r' e. (e, call_next_final further r' e))
        (call_next-IsEnded_from (length r.input.left + 1) r (omega arith))
