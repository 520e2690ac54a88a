-- ===== src/Host/Shell/OptionsRoundTrip.antt =====
-- The options of `container run` are read back from their words.
use mathlib.Core.List.{append-nil}
use oci_kernel.Prelude.{
  push-append, ℕ, ◌^◌, ◌≡◌, refl, ◌∙◌, arith, true, false, ltb, some, List, [], ◌∷◌, ◌++◌, push, ok,
}
use oci_kernel.Prelude.Text.{
  is_empty, is_whitespace, Text, text, text_eq, after_first, before_first, eq_of_text_eq,
}
use oci_kernel.Prelude.Decimal.{to_decimal, are_digits-to_decimal, parse_unsigned-to_decimal}
use oci_kernel.Prelude.Words.{
  is_solid, is_word, are_words, is_solid-append, are_digits-is_solid, lacks, before_first-lacks,
  after_first-lacks, split_once-lacks, before_first_none, after_first-none, are_digits-lacks,
}
use oci_kernel.Container.Spec.{PortMapping, VolumeMount, AccessMode, read_only, read_write}
use oci_kernel.Host.Shell.Options.{
  is_publish, is_volume, port_of, port_mapping, parse_ports, access_of, volume_mount, parse_volumes,
}
use oci_kernel.Host.Shell.Print.{
  port_word, port_args, mode_suffix, volume_word, volume_args, port_fits, all_port_fits, is_part,
  are_parts,
}

-- A word with a colon is no flag.
is_publish_colon : (s r : Text) → after_first b':' s ≡ some r → is_publish s ≡ false
unfolding is_publish after_first
is_publish_colon s r h =
    ground (arith, eq_of_text_eq s (text "-p"), eq_of_text_eq s (text "--publish"))

is_volume_colon : (s r : Text) → after_first b':' s ≡ some r → is_volume s ≡ false
unfolding is_volume after_first
is_volume_colon s r h =
    ground (arith, eq_of_text_eq s (text "-v"), eq_of_text_eq s (text "--volume"))

-- A word that is no flag is passed over.
parse_ports_skip :
    (ports : List PortMapping) (a : Text) (rest : List Text)
    → is_publish a ≡ false
    → parse_ports ports (a ∷ rest) ≡ parse_ports ports rest
unfolding parse_ports
parse_ports_skip ports a [] h = ground arith
parse_ports_skip ports a (value ∷ rest) h = ground arith

parse_volumes_skip :
    (volumes : List VolumeMount) (a : Text) (rest : List Text)
    → is_volume a ≡ false
    → parse_volumes volumes (a ∷ rest) ≡ parse_volumes volumes rest
unfolding parse_volumes
parse_volumes_skip volumes a [] h = ground arith
parse_volumes_skip volumes a (value ∷ rest) h = ground arith

-- A flag and its value are taken.
parse_ports_take :
    (ports : List PortMapping) (a value : Text) (m : PortMapping) (rest : List Text)
    → is_publish a ≡ true
    → port_mapping value ≡ ok m
    → parse_ports ports (a ∷ value ∷ rest) ≡ parse_ports (push ports m) rest
unfolding parse_ports
parse_ports_take ports a value m rest h k = ground arith

parse_volumes_take :
    (volumes : List VolumeMount) (a value : Text) (v : VolumeMount) (rest : List Text)
    → is_volume a ≡ true
    → volume_mount value ≡ ok v
    → parse_volumes volumes (a ∷ value ∷ rest) ≡ parse_volumes (push volumes v) rest
unfolding parse_volumes
parse_volumes_take volumes a value v rest h k = ground arith

flag_is_publish : is_publish (text "-p") ≡ true
unfolding is_publish text_eq
flag_is_publish = refl

flag_is_volume : is_volume (text "-v") ≡ true
unfolding is_volume text_eq
flag_is_volume = refl

flag_is_not_publish : is_publish (text "-v") ≡ false
unfolding is_publish text_eq
flag_is_not_publish = refl

flag_is_not_volume : is_volume (text "-p") ≡ false
unfolding is_volume text_eq
flag_is_not_volume = refl

port_of-to_decimal : (n : ℕ) → ltb n (2 ^ 16) ≡ true → port_of (to_decimal n) ≡ some n
unfolding port_of
port_of-to_decimal n h = parse_unsigned-to_decimal (2 ^ 16) n (ground (arith, h))

to_decimal-lacks : (n : ℕ) → lacks b':' (to_decimal n) ≡ true
to_decimal-lacks n = are_digits-lacks (to_decimal n) (are_digits-to_decimal n)

port_mapping-port_word : (m : PortMapping) → port_fits m ≡ true → port_mapping (port_word m) ≡ ok m
unfolding port_mapping port_word port_fits
port_mapping-port_word m h = ground (
  arith,
  split_once-lacks b':' (to_decimal m.host) (to_decimal m.container) (to_decimal-lacks m.host),
  port_of-to_decimal m.host,
  port_of-to_decimal m.container,
)

is_publish-port_word : (m : PortMapping) → is_publish (port_word m) ≡ false
unfolding port_word
is_publish-port_word m =
    is_publish_colon (port_word m) (to_decimal m.container) (
      after_first-lacks b':' (to_decimal m.host) (to_decimal m.container) (to_decimal-lacks m.host))

is_volume-port_word : (m : PortMapping) → is_volume (port_word m) ≡ false
unfolding port_word
is_volume-port_word m =
    is_volume_colon (port_word m) (to_decimal m.container) (
      after_first-lacks b':' (to_decimal m.host) (to_decimal m.container) (to_decimal-lacks m.host))

after_first-volume_word :
    (v : VolumeMount)
    → is_part v.source ≡ true
    → after_first b':' (volume_word v) ≡ some (v.target ++ mode_suffix v.access)
unfolding volume_word is_part
after_first-volume_word v h =
    ground (arith, after_first-lacks b':' v.source (v.target ++ mode_suffix v.access))

-- The words of the ports, then others.
pub parse_ports-port_args :
    (ports ms : List PortMapping) (rest : List Text)
    → all_port_fits ms ≡ true
    → parse_ports ports (port_args ms ++ rest) ≡ parse_ports (ports ++ ms) rest
unfolding port_args all_port_fits
parse_ports-port_args ports [] rest h = rw append-nil refl
parse_ports-port_args ports (m ∷ ms) rest h = ground (
  arith,
  flag_is_publish,
  port_mapping-port_word m,
  parse_ports_take ports (text "-p") (port_word m) m (port_args ms ++ rest),
  parse_ports-port_args (push ports m) ms rest,
  push-append ports m ms,
)

pub parse_volumes-port_args :
    (volumes : List VolumeMount) (ms : List PortMapping) (rest : List Text)
    → parse_volumes volumes (port_args ms ++ rest) ≡ parse_volumes volumes rest
unfolding port_args
parse_volumes-port_args volumes [] rest = refl
parse_volumes-port_args volumes (m ∷ ms) rest =
    parse_volumes_skip volumes (text "-p") (port_word m ∷ (port_args ms ++ rest)) flag_is_not_volume
    ∙ parse_volumes_skip volumes (port_word m) (port_args ms ++ rest) (is_volume-port_word m)
    ∙ parse_volumes-port_args volumes ms rest

pub parse_ports-volume_args :
    (ports : List PortMapping) (vs : List VolumeMount)
    → are_parts vs ≡ true
    → parse_ports ports (volume_args vs) ≡ ok ports
unfolding volume_args are_parts
parse_ports-volume_args ports [] h = unfold parse_ports in refl
parse_ports-volume_args ports (v ∷ vs) h = ground (
  arith,
  flag_is_not_publish,
  parse_ports_skip ports (text "-v") (volume_word v ∷ volume_args vs),
  parse_ports_skip ports (volume_word v) (volume_args vs),
  is_publish_colon (volume_word v) (v.target ++ mode_suffix v.access),
  after_first-volume_word v,
  parse_ports-volume_args ports vs,
)

-- The mode is read back from the end of the word of the target.
target_of_volume_word :
    (target : Text) (mode : AccessMode)
    → lacks b':' target ≡ true
    → before_first b':' (target ++ mode_suffix mode) ≡ target
target_of_volume_word target read_only h =
    unfold mode_suffix in before_first-lacks b':' target (text "ro") h
target_of_volume_word target read_write h =
    unfold mode_suffix in rw append-nil (before_first_none b':' target h)

mode_of_volume_word :
    (target : Text) (mode : AccessMode)
    → lacks b':' target ≡ true
    → access_of (after_first b':' (target ++ mode_suffix mode)) ≡ mode
unfolding access_of mode_suffix text_eq
mode_of_volume_word target read_only h = ground (arith, after_first-lacks b':' target (text "ro"))
mode_of_volume_word target read_write h =
    ground (arith, after_first-none b':' target, append-nil target)

volume_mount-volume_word :
    (v : VolumeMount)
    → is_part v.source ≡ true
    → is_part v.target ≡ true
    → volume_mount (volume_word v) ≡ ok v
unfolding volume_mount volume_word is_part
volume_mount-volume_word v h k = ground (
  arith,
  after_first-lacks b':' v.source (v.target ++ mode_suffix v.access),
  before_first-lacks b':' v.source (v.target ++ mode_suffix v.access),
  target_of_volume_word v.target v.access,
  mode_of_volume_word v.target v.access,
)

pub parse_volumes-volume_args :
    (volumes vs : List VolumeMount)
    → are_parts vs ≡ true
    → parse_volumes volumes (volume_args vs) ≡ ok (volumes ++ vs)
unfolding volume_args are_parts
parse_volumes-volume_args volumes [] h = unfold parse_volumes in rw append-nil refl
parse_volumes-volume_args volumes (v ∷ vs) h = ground (
  arith,
  flag_is_volume,
  parse_volumes_take volumes (text "-v") (volume_word v) v (volume_args vs),
  volume_mount-volume_word v,
  parse_volumes-volume_args (push volumes v) vs,
  push-append volumes v vs,
)

to_decimal-is_solid : (n : ℕ) → is_solid (to_decimal n) ≡ true
to_decimal-is_solid n = are_digits-is_solid (to_decimal n) (are_digits-to_decimal n)

pub is_word_colon :
    (s t : Text) → is_solid s ≡ true → is_solid t ≡ true → is_word (s ++ (b':' ∷ t)) ≡ true
unfolding is_solid is_empty is_whitespace
is_word_colon [] t h k = ground arith
is_word_colon (c ∷ s) t h k = ground (arith, is_solid-append s (b':' ∷ t))

flag_is_word : is_word (text "-p") ≡ true
unfolding is_empty is_solid is_whitespace
flag_is_word = refl

flag_is_word_too : is_word (text "-v") ≡ true
unfolding is_empty is_solid is_whitespace
flag_is_word_too = refl

mode_suffix-is_solid : (mode : AccessMode) → is_solid (mode_suffix mode) ≡ true
unfolding mode_suffix is_solid is_whitespace
mode_suffix-is_solid read_only = refl
mode_suffix-is_solid read_write = refl

-- The words of the options are words.
pub are_words-port_args :
    (ms : List PortMapping) (rest : List Text)
    → are_words rest ≡ true
    → are_words (port_args ms ++ rest) ≡ true
unfolding port_args are_words port_word
are_words-port_args [] rest h = h
are_words-port_args (m ∷ ms) rest h = ground (
  arith,
  flag_is_word,
  is_word_colon (to_decimal m.host) (to_decimal m.container),
  to_decimal-is_solid m.host,
  to_decimal-is_solid m.container,
  are_words-port_args ms rest,
)

pub are_words-volume_args :
    (vs : List VolumeMount) → are_parts vs ≡ true → are_words (volume_args vs) ≡ true
unfolding volume_args are_words volume_word are_parts is_part
are_words-volume_args [] h = refl
are_words-volume_args (v ∷ vs) h = ground (
  arith,
  flag_is_word_too,
  is_word_colon v.source (v.target ++ mode_suffix v.access),
  is_solid-append v.target (mode_suffix v.access),
  mode_suffix-is_solid v.access,
  are_words-volume_args vs,
)
