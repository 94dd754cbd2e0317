-- ===== src/Ctrl/Arriving.antt =====
-- What ctrlchannel_recv_cmd of src/swtpm/ctrlchannel.c passes on of the bytes that arrive.
use swtpm.Common.{
  ℕ, ◌-◌, ◌≤◌, ◌≡◌, List, [], ◌∷◌, ◌++◌, ◌==◌, ltb, leb, ltb→ge, if_cases, Bool-cases, inl, inr,
  ◌+◌, Option, none, some, length, take, arith, length-append, length-take, length-drop,
  take-drop_append, drop, min, ltb→lt, refl, sym, ap, ◌∙◌,
}
use mathlib.Core.Path.{subst}
use mathlib.Core.List.{append_assoc}
use swtpm.Ctrl.{input_size}
use swtpm.Ctrl.Recv.{Wait, after_wait, recv_from, is_complete}

-- all bytes that arrive
abbrev pub arriving : List (List ℕ × Wait) → List ℕ
arriving [] = []
arriving ((piece, wait) ∷ pieces) = piece ++ arriving pieces

-- what is passed on, if anything is, stands at the beginning of these bytes
abbrev pub Begins : List ℕ → Option (List ℕ) → Type 0
Begins bytes none = Unit
Begins bytes (some received) = (rest : List ℕ) × (bytes ≡ received ++ rest)

cut :
    (n : ℕ) (received piece more : List ℕ)
    → received ++ (piece ++ more) ≡ (received ++ take n piece) ++ (drop n piece ++ more)
cut n received piece more =
    ap (λ p. received ++ (p ++ more)) (sym (take-drop_append n piece))
    ∙ ap (λ p. received ++ p) (append_assoc (take n piece) (drop n piece) more)
    ∙ sym (append_assoc received (take n piece) (drop n piece ++ more))

no_bytes : (xs : List ℕ) → length xs ≡ 0 → xs ≡ []
no_bytes [] e = refl
no_bytes (x ∷ xs) e = absurd (omega (arith, e))

recv_from_full :
    (pieces : List (List ℕ × Wait)) (received : List ℕ)
    → length received ≡ input_size
    → recv_from pieces received ≡ some received
unfolding recv_from
recv_from_full [] received e = rw e refl
recv_from_full ((piece, wait) ∷ pieces) received e = rw e refl

after_wait-Begins :
    (wait : Wait) (rest : Option (List ℕ)) (bytes received : List ℕ)
    → Begins bytes rest
    → Begins bytes (some received)
    → Begins bytes (after_wait wait rest received)
unfolding after_wait
after_wait-Begins Wait.ready rest bytes received r b = r
after_wait-Begins Wait.past_deadline rest bytes received r b = b
after_wait-Begins Wait.timed_out rest bytes received r b = tt

pub recv_from-Begins :
    (pieces : List (List ℕ × Wait)) (received : List ℕ)
    → length received ≤ input_size
    → Begins (received ++ arriving pieces) (recv_from pieces received)
unfolding recv_from
recv_from-Begins [] received fits =
    if_cases (Begins (received ++ [])) (ltb (length received) input_size) (λ short. tt)
      (λ long. ([], refl))
recv_from-Begins ((piece, wait) ∷ pieces) received fits =
    let room = input_size - length received in
    let bytes = received ++ (piece ++ arriving pieces) in
    let part = take room piece in
    let now : Begins bytes (some (received ++ part)) =
      (drop room piece ++ arriving pieces, cut room received piece (arriving pieces)) in
    let lengths : length (received ++ part) ≡ length received + min room (length piece) =
      omega (arith, length-append received part, length-take room piece) in
    let later : Begins bytes (recv_from pieces (received ++ part)) =
      elim (Bool-cases (ltb room (length piece))) [
        | inl less ↦
            let n = ltb→lt room (length piece) less in
            rw (recv_from_full pieces (received ++ part) (omega (arith, lengths, n, fits))) now
        | inr whole ↦
            let n = ltb→ge room (length piece) whole in
            let none_left : drop room piece ≡ [] =
              no_bytes (drop room piece) (omega (arith, length-drop room piece, n)) in
            let same : bytes ≡ (received ++ part) ++ arriving pieces =
              cut room received piece (arriving pieces)
              ∙ ap (λ d. (received ++ part) ++ (d ++ arriving pieces)) none_left in
            subst (λ b. Begins b (recv_from pieces (received ++ part))) (sym same)
              (recv_from-Begins pieces (received ++ part) (omega (arith, lengths)))
      ] in
    if_cases (Begins bytes) (leb input_size (length received))
      (λ no_room. (piece ++ arriving pieces, refl))
      (λ some_room.
        if_cases (Begins bytes) (length part == 0) (λ nothing. tt)
          (λ something.
            if_cases (Begins bytes) (is_complete (received ++ part)) (λ c. now)
              (λ more.
                after_wait-Begins wait (recv_from pieces (received ++ part)) bytes
                  (received ++ part) later now)))
