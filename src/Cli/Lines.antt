-- ===== src/Cli/Lines.antt =====
-- packages/mcp/src/cli.ts: the lines that `lineReader` passes on.
use native.Mathlib.Nat.{le_refl}
use arky_foundation.Common.{
  ℕ, zero, suc, ◌<◌, ◌≤◌, ◌==◌, false, length, List, [], ◌∷◌, ◌++◌, none, some, Text, All, ◌≡◌, ◌≢◌,
  refl, ap, sym, ◌∙◌, inl, inr, Bool-cases, Option-cases, some-injective, append_assoc, append-nil,
  subst, ==_iff, length-append, arith,
}
use arky_foundation.Platform.{Bytes}
use arky_foundation.Cli.Chunks.{
  break_line, strip_return, emit, drain, read_text, read_chunk, read_chunks, joined,
}

emit-append : (line : Text) (ls ms : List Text) → emit line (ls ++ ms) ≡ emit line ls ++ ms
unfolding emit
emit-append line ls ms = ground arith

none-ne : {p : Text × Text} → none ≢ some p
none-ne e = cc

-- No character is a line break.
abbrev pub IsUnbroken : Text → Type 0
IsUnbroken s = All (λ c. (c == 10) ≡ false) s

-- A text with a break has a first line.
break_line-some :
    (s line rest : Text)
    → break_line s ≡ some (line, rest)
    → (s ≡ line ++ 10 ∷ rest) × IsUnbroken line
unfolding break_line
break_line-some [] line rest h = cc
break_line-some (c ∷ s) line rest h = elim (Bool-cases (c == 10)) [
  | inl e ↦
      let p = some-injective (rw e at h) in
      (
        subst (λ x. c ∷ s ≡ x.0 ++ 10 ∷ x.1) p (ap (λ d. d ∷ s) ((==_iff c 10).0 e)),
        subst (λ x. IsUnbroken x.0) p tt,
      )
  | inr e ↦ elim (Option-cases (break_line s)) [
    | inl f ↦ absurd (none-ne (rw (e, break_line, f) at h))
    | inr ((first, later), f) ↦
        let p = some-injective (rw (e, break_line, f) at h) in
        let (q, u) = break_line-some s first later f in
        (
          subst (λ x. c ∷ s ≡ x.0 ++ 10 ∷ x.1) p (ap (λ x. c ∷ x) q),
          subst (λ x. IsUnbroken x.0) p (e, u),
        )
  ]
]

break_line-line :
    (line rest : Text) → IsUnbroken line → break_line (line ++ 10 ∷ rest) ≡ some (line, rest)
unfolding break_line
break_line-line [] rest u = refl
break_line-line (c ∷ line) rest u = rw (break_line, u.0, break_line-line line rest u.1) refl

-- What follows a line break does not matter for the line.
break_line-append :
    (s t line rest : Text)
    → break_line s ≡ some (line, rest)
    → break_line (s ++ t) ≡ some (line, rest ++ t)
break_line-append s t line rest h =
    let (p, u) = break_line-some s line rest h in
    ap (λ x. break_line (x ++ t)) p
    ∙ (ap break_line (append_assoc line (10 ∷ rest) t) ∙ break_line-line line (rest ++ t) u)

break_line-length : (s line rest : Text) → break_line s ≡ some (line, rest) → length rest < length s
break_line-length s line rest h =
    let (p, u) = break_line-some s line rest h in
    omega (arith, ap length p, length-append line (10 ∷ rest))

drain-none : (f : ℕ) (s : Text) → break_line s ≡ none → drain f s ≡ ([], s)
unfolding drain
drain-none zero s h = refl
drain-none (suc f) s h = rw (drain, h) refl

drain-some :
    (f : ℕ) (s line rest : Text)
    → break_line s ≡ some (line, rest)
    → drain (suc f) s ≡ (emit line (drain f rest).0, (drain f rest).1)
unfolding drain
drain-some f s line rest h = rw (drain, h) refl

no_break : break_line [] ≡ none
unfolding break_line
no_break = refl

drain_fuel_some :
    (f g : ℕ) (s line rest : Text)
    → break_line s ≡ some (line, rest)
    → length s ≤ suc f
    → length s ≤ g
    → ((g : ℕ) (s : Text) → length s ≤ f → length s ≤ g → drain f s ≡ drain g s)
    → drain (suc f) s ≡ drain g s
drain_fuel_some f zero s line rest e a b ih =
    absurd (omega (arith, break_line-length s line rest e))
drain_fuel_some f (suc g) s line rest e a b ih =
    let shorter = break_line-length s line rest e in
    drain-some f s line rest e
    ∙ (ap (λ (r : List Text × Text). (emit line r.0, r.1)) (ih g rest (omega arith) (omega arith))
        ∙ sym (drain-some g s line rest e))

-- Fuel for each character is enough.
drain_fuel : (f g : ℕ) (s : Text) → length s ≤ f → length s ≤ g → drain f s ≡ drain g s
drain_fuel zero g [] a b = drain-none zero [] no_break ∙ sym (drain-none g [] no_break)
drain_fuel zero g (c ∷ s) a b = absurd (omega arith)
drain_fuel (suc f) g s a b = elim (Option-cases (break_line s)) [
  | inl e ↦ drain-none (suc f) s e ∙ sym (drain-none g s e)
  | inr ((line, rest), e) ↦ drain_fuel_some f g s line rest e a b (drain_fuel f)
]

-- What has no break is left.
drain_left :
    (f g h : ℕ) (s t : Text)
    → break_line s ≡ none
    → length (s ++ t) ≤ g
    → length ((drain f s).1 ++ t) ≤ h
    → drain g (s ++ t)
      ≡ ((drain f s).0 ++ (drain h ((drain f s).1 ++ t)).0, (drain h ((drain f s).1 ++ t)).1)
drain_left f g h s t e b c =
    rw (drain-none f s e) (drain_fuel g h (s ++ t) b (rw (drain-none f s e) at c))

abbrev AppendsWith : ℕ → ℕ → ℕ → Text → Text → Type 0
AppendsWith f g h s t =
    length s ≤ f
    → length (s ++ t) ≤ g
    → length ((drain f s).1 ++ t) ≤ h
    → drain g (s ++ t)
      ≡ ((drain f s).0 ++ (drain h ((drain f s).1 ++ t)).0, (drain h ((drain f s).1 ++ t)).1)

drain_line :
    (f g h : ℕ) (s t line rest : Text)
    → break_line s ≡ some (line, rest)
    → length s ≤ suc f
    → length (s ++ t) ≤ g
    → length ((drain (suc f) s).1 ++ t) ≤ h
    → ((g h : ℕ) (s t : Text) → AppendsWith f g h s t)
    → drain g (s ++ t) ≡ (
      (drain (suc f) s).0 ++ (drain h ((drain (suc f) s).1 ++ t)).0,
      (drain h ((drain (suc f) s).1 ++ t)).1,
    )
drain_line f zero h s t line rest e a b c ih =
    absurd (omega (arith, break_line-length s line rest e, length-append s t))
drain_line f (suc g) h s t line rest e a b c ih =
    let shorter = break_line-length s line rest e in
    let together =
      break_line-length (s ++ t) line (rest ++ t) (break_line-append s t line rest e) in
    drain-some g (s ++ t) line (rest ++ t) (break_line-append s t line rest e)
    ∙ rw (drain-some f s line rest e) (
        ap (λ (r : List Text × Text). (emit line r.0, r.1))
          (ih g h rest t (omega arith) (omega arith) (rw (drain-some f s line rest e) at c))
        ∙ ap (λ ls. (ls, (drain h ((drain f rest).1 ++ t)).1))
            (emit-append line (drain f rest).0 _))

-- What is drained from a text, and then from what is left with another text behind it, is what is
-- drained from both together, whatever the fuel is, if there is enough.
drain-append :
    (f g h : ℕ) (s t : Text)
    → length s ≤ f
    → length (s ++ t) ≤ g
    → length ((drain f s).1 ++ t) ≤ h
    → drain g (s ++ t)
      ≡ ((drain f s).0 ++ (drain h ((drain f s).1 ++ t)).0, (drain h ((drain f s).1 ++ t)).1)
drain-append zero g h [] t a b c = drain_left zero g h [] t no_break b c
drain-append zero g h (d ∷ s) t a b c = absurd (omega arith)
drain-append (suc f) g h s t a b c = elim (Option-cases (break_line s)) [
  | inl e ↦ drain_left (suc f) g h s t e b c
  | inr ((line, rest), e) ↦ drain_line f g h s t line rest e a b c (drain-append f)
]

break_line-drain : (f : ℕ) (s : Text) → length s ≤ f → break_line (drain f s).1 ≡ none
break_line-drain zero [] a = rw (drain-none zero [] no_break) no_break
break_line-drain zero (c ∷ s) a = absurd (omega arith)
break_line-drain (suc f) s a = elim (Option-cases (break_line s)) [
  | inl e ↦ rw (drain-none (suc f) s e) e
  | inr ((line, rest), e) ↦
      rw (drain-some f s line rest e)
        (break_line-drain f rest (omega (arith, break_line-length s line rest e)))
]

module _ (decode : Bytes → Text) where
  read_chunks-unbroken :
      (buf : Text) (cs : List Bytes)
      → break_line buf ≡ none
      → read_chunks decode buf cs ≡ read_text buf (joined decode cs)
  unfolding read_chunks read_chunk read_text joined
  read_chunks-unbroken buf [] u =
      sym (drain-none _ (buf ++ []) (rw (append-nil buf) u) ∙ ap (λ b. ([], b)) (append-nil buf))
  read_chunks-unbroken buf (c ∷ cs) u =
      let s = buf ++ decode c in
      let left = (drain (length s) s).1 in
      let t = joined decode cs in
      ap (λ (r : List Text × Text). ((read_chunk decode buf c).0 ++ r.0, r.1))
        (read_chunks-unbroken left cs (break_line-drain (length s) s (le_refl _)))
      ∙ (sym (
            drain-append (length s) (length (s ++ t)) (length (left ++ t)) s t (le_refl _)
              (le_refl _) (le_refl _))
          ∙ ap (λ s. drain (length s) s) (append_assoc buf (decode c) t))

  -- However chunks cut the lines, the reader gives the lines, and keeps the buffer, that it gives and
  -- keeps for the texts of the chunks as one text, where each chunk is decoded by itself.
  pub read_chunks-joined :
      (cs : List Bytes) → read_chunks decode [] cs ≡ read_text [] (joined decode cs)
  read_chunks-joined cs = read_chunks-unbroken [] cs no_break

-- A line that is not empty, has no break and does not end with a carriage return.
abbrev IsLine : Text → Type 0
IsLine line = IsUnbroken line × (line ≢ []) × (strip_return line ≡ line)

-- each line with a break behind it
unfoldable pub unlines : List Text → Text
unlines [] = []
unlines (l ∷ ls) = l ++ 10 ∷ unlines ls

emit-line :
    (line : Text) (ls : List Text) → line ≢ [] → strip_return line ≡ line → emit line ls ≡ line ∷ ls
unfolding emit
emit-line [] ls n e = absurd (n refl)
emit-line (c ∷ s) ls n e = rw (emit, e) refl

drain-unlines :
    (f : ℕ) (ls : List Text)
    → All IsLine ls
    → length (unlines ls) ≤ f
    → drain f (unlines ls) ≡ (ls, [])
unfolding unlines
drain-unlines f [] h a = drain-none f [] no_break
drain-unlines zero (l ∷ ls) h a = absurd (omega (arith, length-append l (10 ∷ unlines ls)))
drain-unlines (suc f) (l ∷ ls) h a =
    drain-some f (l ++ 10 ∷ unlines ls) l (unlines ls) (break_line-line l (unlines ls) h.0.0)
    ∙ rw (drain-unlines f ls h.1 (omega (arith, length-append l (10 ∷ unlines ls))))
        (ap (λ ms. (ms, [])) (emit-line l ls h.0.1 h.0.2))

-- Lines that are not empty, hold no line break and end in no carriage return are read back if the
-- texts of the chunks are together the lines, each with a line break behind it.
read_chunks-unlines :
    (decode : Bytes → Text) (ls : List Text) (cs : List Bytes)
    → All IsLine ls
    → joined decode cs ≡ unlines ls
    → read_chunks decode [] cs ≡ (ls, [])
unfolding read_text
read_chunks-unlines decode ls cs h e =
    read_chunks-joined decode cs
    ∙ (ap (λ s. drain (length s) s) e ∙ drain-unlines (length (unlines ls)) ls h (le_refl _))
