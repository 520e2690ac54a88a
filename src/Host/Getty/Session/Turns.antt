-- ===== src/Host/Getty/Session/Turns.antt =====
-- The loops of kernel/src/host/getty.rs on a finite input.
use oci_kernel.Prelude.{
  ℕ, zero, suc, ◌≡◌, ◌<◌, ◌⊎◌, inl, inr, refl, arith, Bool, true, false, ltb, List, [], ◌++◌,
  length,
}
use oci_kernel.Prelude.Text.{Text, text}
use oci_kernel.Host.Getty.State.{Getty, print}
use oci_kernel.Host.Getty.Lines.{read_line, read_line_silent}
use oci_kernel.Host.Getty.Lines.Laws.{
  takes_from, Reading-cases, takes_from-read_line, takes_from-read_line_silent,
}
use oci_kernel.Host.Getty.Session.Login.{
  asked, asked_password, login_turn_waits, login_turn_waits_again, login_turn-lines,
}
use oci_kernel.Host.Getty.Session.{
  Mode, in_shell, at_login, Turn, next, blocked, check_login, login_turn, shell_turn, turn, run,
}

-- A turn that goes on leaves fewer bytes than it was given.
unfoldable pub consumes : List ℕ → Turn → Bool
consumes input (blocked g) = true
consumes input (next mode g rest) = ltb (length rest) (length input)

unfoldable pub is_blocked : Turn → Bool
is_blocked (blocked g) = true
is_blocked (next mode g rest) = false

Turn-cases :
    (t : Turn)
    → ((g : Getty) × (t ≡ blocked g))
      ⊎ ((m : Mode) × (g : Getty) × (rest : List ℕ) × (t ≡ next m g rest))
Turn-cases (blocked g) = inl (g, refl)
Turn-cases (next m g rest) = inr (m, g, rest, refl)

consumes-check_login :
    (user pass : Text) (g : Getty) (input rest : List ℕ)
    → ltb (length rest) (length input) ≡ true
    → consumes input (check_login user pass g rest) ≡ true
unfolding consumes check_login
consumes-check_login user pass g input rest h = ground arith

consumes-login_turn : (g : Getty) (input : List ℕ) → consumes input (login_turn g input) ≡ true
unfolding consumes takes_from
consumes-login_turn g input = elim (Reading-cases (read_line (asked g) [] input)) [
  | inl (w, e) ↦ ground (arith, login_turn_waits g input w e)
  | inr (user, between, named, e) ↦
      let first = takes_from-read_line (asked g) [] input in
      let second = takes_from-read_line_silent (asked_password named) [] between in
      elim (Reading-cases (read_line_silent (asked_password named) [] between)) [
        | inl (w, k) ↦ ground (arith, login_turn_waits_again g input user between named w e k)
        | inr (pass, rest, confirmed, k) ↦ ground (
          arith,
          login_turn-lines g input user between named pass rest confirmed e k,
          consumes-check_login user pass confirmed input rest,
        )
      ]
]

module _ (read_pci : ℕ → ℕ) where
  consumes-shell_turn :
      (g : Getty) (input : List ℕ) → consumes input (shell_turn read_pci g input) ≡ true
  unfolding shell_turn consumes takes_from
  consumes-shell_turn g input =
      let prompt = print g (g.cwd ++ text "# ") in
      let read = takes_from-read_line prompt [] input in
      elim (Reading-cases (read_line prompt [] input)) [
        | inl (w, e) ↦ ground arith
        | inr (s, rest, w, e) ↦ ground arith
      ]

  pub consumes-turn :
      (mode : Mode) (g : Getty) (input : List ℕ)
      → consumes input (turn read_pci mode g input) ≡ true
  unfolding turn
  consumes-turn at_login g input = consumes-login_turn g input
  consumes-turn in_shell g input = consumes-shell_turn g input

  -- No turn is taken for ever: as many rounds as there are bytes, and one more, come to wait for the next byte.
  pub run_blocked :
      (rounds : ℕ) (mode : Mode) (g : Getty) (input : List ℕ)
      → length input < rounds
      → is_blocked (run read_pci rounds mode g input) ≡ true
  unfolding run is_blocked consumes
  run_blocked zero mode g input h = absurd (omega arith)
  run_blocked (suc rounds) mode g input h = elim (Turn-cases (turn read_pci mode g input)) [
    | inl (w, e) ↦ ground arith
    | inr (m, w, rest, e) ↦ ground (arith, consumes-turn mode g input, run_blocked rounds m w rest)
  ]

-- The places that the loops come to from one place.
pub data Reaches (read_pci : ℕ → ℕ) (mode : Mode) (g : Getty) (input : List ℕ)
    : Mode → Getty → List ℕ → Type 0 where
  here : Reaches read_pci mode g input mode g input
  step :
      {mode' mode'' : Mode} {g' g'' : Getty} {input' input'' : List ℕ}
      → Reaches read_pci mode g input mode' g' input'
      → turn read_pci mode' g' input' ≡ next mode'' g'' input''
      → Reaches read_pci mode g input mode'' g'' input''

next_in_shell : Turn → Bool
next_in_shell (blocked g) = true
next_in_shell (next in_shell g rest) = true
next_in_shell (next at_login g rest) = false

shell_turn-in_shell :
    (read_pci : ℕ → ℕ) (g : Getty) (input : List ℕ)
    → next_in_shell (shell_turn read_pci g input) ≡ true
unfolding shell_turn next_in_shell
shell_turn-in_shell read_pci g input =
    elim (Reading-cases (read_line (print g (g.cwd ++ text "# ")) [] input)) [
      | inl (w, e) ↦ ground arith
      | inr (s, rest, w, e) ↦ ground arith
    ]

mode_of_next :
    (m : Mode) (g : Getty) (rest : List ℕ) → next_in_shell (next m g rest) ≡ true → m ≡ in_shell
unfolding next_in_shell
mode_of_next at_login g rest h = cc
mode_of_next in_shell g rest h = refl

-- The shell is not left: from the shell only the shell is reached.
pub Reaches-in_shell :
    (read_pci : ℕ → ℕ) {g : Getty} {input : List ℕ} {mode : Mode} {g' : Getty} {input' : List ℕ}
    → Reaches read_pci in_shell g input mode g' input'
    → mode ≡ in_shell
unfolding turn
Reaches-in_shell read_pci here = refl
Reaches-in_shell read_pci (step {mode'} {mode''} {g'} {g''} {input'} {input''} r e) = ground (
  arith,
  Reaches-in_shell read_pci r,
  shell_turn-in_shell read_pci g' input',
  mode_of_next mode'' g'' input'',
)
