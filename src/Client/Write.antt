-- ===== src/Client/Write.antt =====
-- The write loop: what it sends, what it leaves, and why it stops.
use Prim.Native.Nat.add
use tnt.Base.{
  ℕ, zero, suc, ◌+◌, ◌-◌, ◌≤◌, ◌<◌, Bool, true, false, List, ◌==◌, Bool-cases, ltb, [], ◌∷◌, ◌++◌,
  length, take, drop, Bytes, ◌≡◌, refl, ◌∙◌, sym, ap, ◌⊎◌, ◌&&◌, inl, inr, arith, append_assoc,
  append-nil, length-take, length-drop,
}
use tnt.Base.Int.{ℤ, pos, negsuc, pos_part, ltb_ℤ}
use tnt.Client.{Host, Client, chunk_size, write_loop}

pub take-add {ℓ} :
    {A : Type ℓ} (m n : ℕ) (xs : List A) → take (m + n) xs ≡ take m xs ++ take n (drop m xs)
take-add zero n xs = rw add.zero refl
take-add (suc m) zero [] = rw add.suc refl
take-add (suc m) (suc n) [] = rw add.suc refl
take-add (suc m) n (x ∷ xs) = rw add.suc (ap (◌∷◌ x) (take-add m n xs))

take-take-length {ℓ} :
    {A : Type ℓ} (n m : ℕ) (xs : List A) → n ≤ length (take m xs) → take n (take m xs) ≡ take n xs
take-take-length zero m xs h = refl
take-take-length (suc n) zero xs h = absurd (omega arith)
take-take-length (suc n) (suc m) [] h = refl
take-take-length (suc n) (suc m) (x ∷ xs) h = ap (◌∷◌ x) (take-take-length n m xs (omega arith))

chunk_size_bounds :
    (remaining window budget : ℕ)
    → (chunk_size remaining window budget ≤ remaining)
      × (chunk_size remaining window budget ≤ window)
      × ((budget ≡ 0) ⊎ (chunk_size remaining window budget ≤ budget))
unfolding chunk_size
chunk_size_bounds remaining window budget = ground arith

module _ (host : Host) where
  open host use {State, received, window_size, write, window_size-received, write-received}

  -- A return of the loop: it failed and the client is disconnected, or it sent the first `k` bytes
  -- in order, within the budget.
  abbrev pub Sent : Client → State → Bytes → ℕ → ℕ → Bool → ℤ × Client × State → Type 0
  Sent client s rest total budget closed (rc, client', s') =
      ((rc ≡ negsuc 0) × (client' ≡ record client { connected = false }))
      ⊎ ((k : ℕ) × (rc ≡ pos (total + k))
          × (client' ≡ client)
          × (k ≤ length rest)
          × (received s' ≡ received s ++ take k rest)
          × ((budget ≡ 0) ⊎ (k ≤ budget))
          × ((closed ≡ false) ⊎ ((k ≡ length rest) ⊎ ((k ≡ budget) × (0 < k)))))

  nothing-Sent :
      (client : Client) (s s' : State) (rest : Bytes) (total budget : ℕ) (closed : Bool)
      → received s' ≡ received s
      → (closed ≡ false) ⊎ (length rest ≡ 0)
      → Sent client s rest total budget closed (pos total, client, s')
  nothing-Sent client s s' rest total budget closed h why = inr (
    0,
    ap pos (omega arith),
    refl,
    omega arith,
    h ∙ sym (append-nil (received s)),
    inr (omega arith),
    elim why [ inl e ↦ inl e | inr e ↦ inr (inl (sym e)) ],
  )

  -- A write that sends something sends the first `n` bytes of `rest`.
  one_write :
      (s s' : State) (rest : Bytes) (window budget : ℕ)
      → received s' ≡ received s
      → let answer = write s' (take (chunk_size (length rest) window budget) rest) in
        ltb_ℤ (pos 0) answer.0 ≡ true
        → let n = pos_part answer.0 in
          (0 < n)
          × (n ≤ length rest)
          × ((budget ≡ 0) ⊎ (n ≤ budget))
          × (received answer.1 ≡ received s ++ take n rest)
  one_write s s' rest window budget same sent =
      let chunk = chunk_size (length rest) window budget in
      let answer = write s' (take chunk rest) in
      let n = pos_part answer.0 in
      let whole : answer.0 ≡ pos n = ground arith in
      let (fits, grown) = write-received s' (take chunk rest) n whole in
      let bounds = chunk_size_bounds (length rest) window budget in
      let at_most : n ≤ chunk = omega (arith, length-take chunk rest) in
      (
        ground arith,
        omega arith,
        omega arith,
        grown ∙ rw (same, take-take-length n chunk rest fits) refl,
      )

  extend-Sent :
      (client : Client) (s s' : State) (rest : Bytes) (n total budget : ℕ) (closed : Bool) (rc : ℤ)
      (client' : Client) (end : State)
      → n ≤ length rest
      → (budget ≡ 0) ⊎ (n < budget)
      → received s' ≡ received s ++ take n rest
      → Sent client s' (drop n rest) (total + n) (budget - n) closed (rc, client', end)
      → Sent client s rest total budget closed (rc, client', end)
  extend-Sent client s s' rest n total budget closed rc client' end fits left sent more =
      elim more [
        | inl failed ↦ inl failed
        | inr (k, code, kept, most, grown, within, why) ↦ inr (
          n + k,
          code ∙ ap pos (omega arith),
          kept,
          omega (arith, length-drop n rest),
          grown
              ∙ rw (sent, take-add n k rest)
                  (append_assoc (received s) (take n rest) (take k (drop n rest))),
          omega arith,
          elim why [ inl c ↦ inl c | inr e ↦ inr (omega (arith, length-drop n rest)) ],
        )
      ]

  pub write_loop-Sent :
      (fuel : ℕ) (client : Client) (s : State) (rest : Bytes) (total budget : ℕ) (closed : Bool)
      → length rest ≤ fuel
      → Sent client s rest total budget closed
          (write_loop host fuel client s rest total budget closed)
  unfolding write_loop
  write_loop-Sent zero client s [] total budget closed h =
      nothing-Sent client s s [] total budget closed refl (inr refl)
  write_loop-Sent zero client s (x ∷ rest) total budget closed h = absurd (omega arith)
  write_loop-Sent (suc fuel) client s [] total budget closed h =
      nothing-Sent client s s [] total budget closed refl (inr refl)
  write_loop-Sent (suc fuel) client s (x ∷ rest) total budget closed h =
      let chunk = chunk_size (suc (length rest)) (window_size s).0 budget in
      let s' = (window_size s).1 in
      let answer = write s' (take chunk (x ∷ rest)) in
      let n = pos_part answer.0 in
      let nonempty : (suc (length rest) == 0) ≡ false = ground arith in
      rw nonempty (elim (Bool-cases ((window_size s).0 == 0)) [
        | inl shut ↦ rw shut (elim (Bool-cases closed) [
          | inl c ↦ rw c (inl (refl, refl))
          | inr c ↦ rw c (
              nothing-Sent client s s' (x ∷ rest) total budget false (window_size-received s)
                (inl refl))
        ])
        | inr window ↦ rw window (elim (Bool-cases (ltb_ℤ (pos 0) answer.0)) [
          | inr refused ↦ rw refused (inl (refl, refl))
          | inl sent ↦ rw sent (
              let one =
                one_write s s' (x ∷ rest) (window_size s).0 budget (window_size-received s) sent in
              elim (Bool-cases (ltb 0 budget && budget - n == 0)) [
                | inl used ↦
                    rw used
                      (inr (n, refl, refl, one.1, one.3, one.2, inr (inr (ground (arith, one)))))
                | inr left ↦ rw left (
                    extend-Sent client s answer.1 (x ∷ rest) n total budget closed _ _ _ one.1
                      (ground (arith, one)) one.3
                      (write_loop-Sent fuel client answer.1 (drop n (x ∷ rest)) (total + n)
                        (budget - n) closed (omega (arith, length-drop n (x ∷ rest), one.0))))
              ])
        ])
      ])

  -- Every bound on the rounds from the length of the text on gives the same result: the loop of
  -- `client_write_direct_locked` ends within as many rounds, whatever the host answers.
  pub write_loop-fuel :
      (fuel enough : ℕ) (client : Client) (s : State) (rest : Bytes) (total budget : ℕ)
      (closed : Bool)
      → length rest ≤ enough
      → enough ≤ fuel
      → write_loop host fuel client s rest total budget closed
        ≡ write_loop host enough client s rest total budget closed
  unfolding write_loop
  write_loop-fuel zero zero client s rest total budget closed h k = refl
  write_loop-fuel zero (suc enough) client s rest total budget closed h k = absurd (omega arith)
  write_loop-fuel (suc fuel) zero client s [] total budget closed h k = refl
  write_loop-fuel (suc fuel) zero client s (x ∷ rest) total budget closed h k = absurd (omega arith)
  write_loop-fuel (suc fuel) (suc enough) client s rest total budget closed h k =
      let (window, s') = window_size s in
      let (sent, s'') = write s' (take (chunk_size (length rest) window budget) rest) in
      let n = pos_part sent in
      ground (
        arith,
        length-drop n rest,
        write_loop-fuel fuel enough client s'' (drop n rest) (total + n) (budget - n) closed,
      )
