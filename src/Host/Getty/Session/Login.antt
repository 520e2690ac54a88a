-- ===== src/Host/Getty/Session/Login.antt =====
-- Who gets a shell from kernel/src/host/getty.rs, and what the screen shows of a password.
use oci_kernel.Prelude.{ℕ, ◌≡◌, ◌≢◌, ◌⊎◌, inl, inr, refl, sym, ap, ◌∙◌, arith, List, [], ◌∷◌, push}
use oci_kernel.Prelude.Text.{Text, text, eq_of_text_eq, trim}
use oci_kernel.Host.Getty.State.{Getty, print, println}
use oci_kernel.Host.Getty.Lines.{line, waiting, erase, read_line, read_line_silent}
use oci_kernel.Host.Getty.Lines.Laws.{getty_of, Reading-cases}
use oci_kernel.Host.Getty.Session.{Mode, in_shell, next, blocked, is_root, check_login, login_turn}

abbrev pub asked : Getty → Getty
asked g = print (println g (text "OCI Kernel 0.1.0")) (text "login: ")

abbrev pub asked_password : Getty → Getty
asked_password g = print g (text "Password: ")

blocked_ne_next :
    (w : Getty) {mode : Mode} {g : Getty} {rest : List ℕ} → blocked w ≢ next mode g rest
blocked_ne_next w = λ e. cc

-- The two lines of a round, with what is left of the input.
pub record Credentials (g : Getty) (input rest : List ℕ) : Type 0 where
  pub user : Text
  pub pass : Text
  pub between : List ℕ
  pub named : Getty
  pub confirmed : Getty
  pub user_read : read_line (asked g) [] input ≡ line user between named
  pub pass_read : read_line_silent (asked_password named) [] between ≡ line pass rest confirmed
  pub is_user : trim user ≡ text "root"
  pub is_pass : trim pass ≡ text "admin"

pub login_turn_waits :
    (g : Getty) (input : List ℕ) (w : Getty)
    → read_line (asked g) [] input ≡ waiting w
    → login_turn g input ≡ blocked w
unfolding login_turn
login_turn_waits g input w e = ground arith

pub login_turn_waits_again :
    (g : Getty) (input : List ℕ) (user : Text) (between : List ℕ) (named w : Getty)
    → read_line (asked g) [] input ≡ line user between named
    → read_line_silent (asked_password named) [] between ≡ waiting w
    → login_turn g input ≡ blocked w
unfolding login_turn
login_turn_waits_again g input user between named w e k = ground arith

pub login_turn-lines :
    (g : Getty) (input : List ℕ) (user : Text) (between : List ℕ) (named : Getty) (pass : Text)
    (rest : List ℕ) (confirmed : Getty)
    → read_line (asked g) [] input ≡ line user between named
    → read_line_silent (asked_password named) [] between ≡ line pass rest confirmed
    → login_turn g input ≡ check_login user pass confirmed rest
unfolding login_turn
login_turn-lines g input user between named pass rest confirmed e k = ground arith

-- The credentials decide the loop that follows.
check_login-shell :
    (user pass : Text) (g : Getty) (input : List ℕ) (g' : Getty) (rest : List ℕ)
    → check_login user pass g input ≡ next in_shell g' rest
    → (trim user ≡ text "root") × (trim pass ≡ text "admin") × (input ≡ rest)
unfolding check_login is_root
check_login-shell user pass g input g' rest h = (
  ground (arith, eq_of_text_eq (trim user) (text "root")),
  ground (arith, eq_of_text_eq (trim pass) (text "admin")),
  ground arith,
)

-- A round of the login loop ends in the shell only if the line that was read first is `root` and the one that was read second, without an echo, is `admin`, up to white space around them.
pub login_turn-shell :
    (g : Getty) (input : List ℕ) (g' : Getty) (rest : List ℕ)
    → login_turn g input ≡ next in_shell g' rest
    → Credentials g input rest
login_turn-shell g input g' rest h = elim (Reading-cases (read_line (asked g) [] input)) [
  | inl (w, e) ↦ absurd (blocked_ne_next w (sym (login_turn_waits g input w e) ∙ h))
  | inr (user, between, named, e) ↦
      elim (Reading-cases (read_line_silent (asked_password named) [] between)) [
        | inl (w, k) ↦
            absurd (
              blocked_ne_next w (sym (login_turn_waits_again g input user between named w e k) ∙ h))
        | inr (pass, left, confirmed, k) ↦
            let c =
              check_login-shell user pass confirmed left g' rest
                (sym (login_turn-lines g input user between named pass left confirmed e k) ∙ h) in
            record {
              user = user;
              pass = pass;
              between = between;
              named = named;
              confirmed = confirmed;
              user_read = e;
              pass_read = k ∙ ap (λ r. line pass r confirmed) c.2;
              is_user = c.0;
              is_pass = c.1;
            }
      ]
]

-- Nothing that is typed at the password prompt is shown: the screen changes by the end of the line at most.
pub read_line_silent_hidden :
    (g : Getty) (buf input : List ℕ)
    → (getty_of (read_line_silent g buf input) ≡ g)
      ⊎ (getty_of (read_line_silent g buf input) ≡ print g (10 ∷ []))
unfolding read_line_silent getty_of
read_line_silent_hidden g buf [] = inl refl
read_line_silent_hidden g buf (c ∷ input) = ground (
  arith,
  read_line_silent_hidden g (erase buf) input,
  read_line_silent_hidden g (push buf c) input,
  read_line_silent_hidden g buf input,
)
