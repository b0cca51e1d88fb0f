-- ===== src/Comm/Message/Archive/Numbers.antt =====
-- An archive that writes every member as numbers: the law of the parameter can hold.
use pds_progetto.Base.{
  ℕ, zero, suc, Text, Bool, true, false, Option, none, some, List, [], ◌∷◌, ◌++◌, ◌≡◌, refl, sym,
  ap, ◌∙◌, length, ◌==◌, if◌then◌else◌,
}
use mathlib.Core.List.{append_assoc, append-nil}
use pds_progetto.Base.Int.{ℤ, pos, negsuc}
use pds_progetto.Comm.CommError.{
  CommErrno, ce_not_an_error, ce_generic, ce_failure, ce_unexpected_type, ce_unexpected_value,
  ce_wrong_type, ce_wrong_value, ce_not_allowed,
}
use pds_progetto.Comm.Message.{
  MessageType, msg_error, msg_undefined, msg_okay, msg_login, msg_probe, msg_probe_content, msg_get,
  msg_get_content, msg_push, msg_restore, msg_restore_content, msg_end, msg_retry_later, unnamed,
  ElementStatus, created_file, modified_file, erased_file, created_dir, erased_dir, unnamed_status,
}
use pds_progetto.Comm.Message.Archive.{Archive, Saved, SavedError}

pub record Codec (A : Type 0) : Type 0 where
  pub encode : A → Text
  pub decode : Text → Option (A × Text)
  pub decode-encode : (a : A) (t : Text) → decode (encode a ++ t) ≡ some (a, t)

abbrev get_number : Text → Option (ℕ × Text)
get_number [] = none
get_number (n ∷ t) = some (n, t)

abbrev number_codec : Codec ℕ
number_codec = record { encode = λ n. n ∷ []; decode = get_number; decode-encode = λ n t. refl }

abbrev mapped_pair : {A B : Type 0} → (A → B) → Option (A × Text) → Option (B × Text)
mapped_pair f none = none
mapped_pair f (some (a, t)) = some (f a, t)

abbrev mapped :
    {A B : Type 0} (C : Codec A) (f : B → A) (g : A → B) → ((b : B) → g (f b) ≡ b) → Codec B
mapped C f g back = record {
  encode = λ b. C.encode (f b);
  decode = λ t. mapped_pair g (C.decode t);
  decode-encode = λ b t. rw (C.decode-encode (f b) t) (ap (λ x. some (x, t)) (back b));
}

abbrev then_get : {A B : Type 0} → Codec B → Option (A × Text) → Option ((A × B) × Text)
then_get D none = none
then_get D (some (a, t)) = mapped_pair (λ b. (a, b)) (D.decode t)

abbrev paired : {A B : Type 0} → Codec A → Codec B → Codec (A × B)
paired C D = record {
  encode = λ p. C.encode p.0 ++ D.encode p.1;
  decode = λ t. then_get D (C.decode t);
  decode-encode = λ p t.
      rw
        (
          append_assoc (C.encode p.0) (D.encode p.1) t,
          C.decode-encode p.0 (D.encode p.1 ++ t),
          D.decode-encode p.1 t,
        )
        refl;
}

module _ {A : Type 0} (C : Codec A) where
  abbrev put_all : List A → Text
  put_all [] = []
  put_all (a ∷ xs) = C.encode a ++ put_all xs

  abbrev get_all : ℕ → Text → Option (List A × Text)
  get_all zero t = some ([], t)
  get_all (suc n) t = elim (C.decode t) [
    | none ↦ none
    | some (a, t') ↦ mapped_pair (λ xs. a ∷ xs) (get_all n t')
  ]

  pub get_all-put_all :
      (xs : List A) (t : Text) → get_all (length xs) (put_all xs ++ t) ≡ some (xs, t)
  get_all-put_all [] t = refl
  get_all-put_all (a ∷ xs) t =
      rw
        (
          append_assoc (C.encode a) (put_all xs) t,
          C.decode-encode a (put_all xs ++ t),
          get_all-put_all xs t,
        )
        refl

  abbrev get_list : Text → Option (List A × Text)
  get_list [] = none
  get_list (n ∷ t) = get_all n t

  abbrev list_codec : Codec (List A)
  list_codec = record {
    encode = λ xs. length xs ∷ put_all xs;
    decode = get_list;
    decode-encode = get_all-put_all;
  }

abbrev text_codec : Codec Text
text_codec = list_codec number_codec

abbrev errno_tag : CommErrno → ℕ
errno_tag ce_not_an_error = 0
errno_tag ce_generic = 1
errno_tag ce_failure = 2
errno_tag ce_unexpected_type = 3
errno_tag ce_unexpected_value = 4
errno_tag ce_wrong_type = 5
errno_tag ce_wrong_value = 6
errno_tag ce_not_allowed = 7

abbrev errno_of : ℕ → CommErrno
errno_of n =
    if n == 0
    then ce_not_an_error
    else if n == 1
    then ce_generic
    else if n == 2
    then ce_failure
    else if n == 3
    then ce_unexpected_type
    else if n == 4
    then ce_unexpected_value
    else if n == 5
    then ce_wrong_type
    else if n == 6
    then ce_wrong_value
    else ce_not_allowed

pub errno_back : (x : CommErrno) → errno_of (errno_tag x) ≡ x
errno_back ce_not_an_error = refl
errno_back ce_generic = refl
errno_back ce_failure = refl
errno_back ce_unexpected_type = refl
errno_back ce_unexpected_value = refl
errno_back ce_wrong_type = refl
errno_back ce_wrong_value = refl
errno_back ce_not_allowed = refl

abbrev status_tag : ElementStatus → ℕ × ℤ
status_tag created_file = (0, pos 0)
status_tag modified_file = (1, pos 0)
status_tag erased_file = (2, pos 0)
status_tag created_dir = (3, pos 0)
status_tag erased_dir = (4, pos 0)
status_tag (unnamed_status z) = (5, z)

abbrev status_of : ℕ → ℤ → ElementStatus
status_of n z =
    if n == 0
    then created_file
    else if n == 1
    then modified_file
    else if n == 2
    then erased_file
    else if n == 3
    then created_dir
    else if n == 4
    then erased_dir
    else unnamed_status z

pub status_back : (x : ElementStatus) → status_of (status_tag x).0 (status_tag x).1 ≡ x
status_back created_file = refl
status_back modified_file = refl
status_back erased_file = refl
status_back created_dir = refl
status_back erased_dir = refl
status_back (unnamed_status z) = refl

abbrev bool_tag : Bool → ℕ
bool_tag false = 0
bool_tag true = 1

abbrev bool_of : ℕ → Bool
bool_of n = if n == 0 then false else true

pub bool_back : (x : Bool) → bool_of (bool_tag x) ≡ x
bool_back false = refl
bool_back true = refl

abbrev int_tag : ℤ → ℕ × ℕ
int_tag (pos n) = (0, n)
int_tag (negsuc n) = (1, n)

abbrev int_of : ℕ × ℕ → ℤ
int_of (zero, n) = pos n
int_of (suc _, n) = negsuc n

pub int_back : (z : ℤ) → int_of (int_tag z) ≡ z
int_back (pos n) = refl
int_back (negsuc n) = refl

abbrev int_codec : Codec ℤ
int_codec = mapped (paired number_codec number_codec) int_tag int_of int_back

abbrev code_tag : MessageType → ℕ × ℤ
code_tag msg_error = (0, pos 0)
code_tag msg_undefined = (1, pos 0)
code_tag msg_okay = (2, pos 0)
code_tag msg_login = (3, pos 0)
code_tag msg_probe = (4, pos 0)
code_tag msg_probe_content = (5, pos 0)
code_tag msg_get = (6, pos 0)
code_tag msg_get_content = (7, pos 0)
code_tag msg_push = (8, pos 0)
code_tag msg_restore = (9, pos 0)
code_tag msg_restore_content = (10, pos 0)
code_tag msg_end = (11, pos 0)
code_tag msg_retry_later = (12, pos 0)
code_tag (unnamed z) = (13, z)

abbrev code_at : ℕ → ℤ → MessageType
code_at n z =
    if n == 0
    then msg_error
    else if n == 1
    then msg_undefined
    else if n == 2
    then msg_okay
    else if n == 3
    then msg_login
    else if n == 4
    then msg_probe
    else if n == 5
    then msg_probe_content
    else if n == 6
    then msg_get
    else if n == 7
    then msg_get_content
    else if n == 8
    then msg_push
    else if n == 9
    then msg_restore
    else if n == 10
    then msg_restore_content
    else if n == 11
    then msg_end
    else if n == 12
    then msg_retry_later
    else unnamed z

pub code_back : (x : MessageType) → code_at (code_tag x).0 (code_tag x).1 ≡ x
code_back msg_error = refl
code_back msg_undefined = refl
code_back msg_okay = refl
code_back msg_login = refl
code_back msg_probe = refl
code_back msg_probe_content = refl
code_back msg_get = refl
code_back msg_get_content = refl
code_back msg_push = refl
code_back msg_restore = refl
code_back msg_restore_content = refl
code_back msg_end = refl
code_back msg_retry_later = refl
code_back (unnamed z) = refl

abbrev option_tag : {A : Type 0} → Option A → List A
option_tag none = []
option_tag (some a) = a ∷ []

abbrev option_of : {A : Type 0} → List A → Option A
option_of [] = none
option_of (a ∷ _) = some a

pub option_back : {A : Type 0} (o : Option A) → option_of (option_tag o) ≡ o
option_back none = refl
option_back (some a) = refl

abbrev error_codec : Codec SavedError
error_codec =
    mapped
      (paired (mapped number_codec errno_tag errno_of errno_back) (paired text_codec text_codec))
      (λ e. (e.comm_errno, (e.message, e.location)))
      (λ p. record { comm_errno = p.0; message = p.1.0; location = p.1.1 }) (λ e. refl)

abbrev bool_codec : Codec Bool
bool_codec = mapped number_codec bool_tag bool_of bool_back

-- The members in the order of `Message::serialize`.
abbrev saved_codec : Codec Saved
saved_codec =
    mapped
      (paired (mapped (paired number_codec int_codec) code_tag (λ p. code_at p.0 p.1) code_back) (
        paired text_codec (
          paired text_codec (
            paired text_codec (
              paired text_codec (
                paired (list_codec text_codec) (
                  paired (list_codec (paired text_codec text_codec)) (
                    paired text_codec (
                      paired
                        (mapped (paired number_codec int_codec) status_tag (λ p. status_of p.0 p.1)
                          status_back)
                        (paired (mapped (list_codec error_codec) option_tag option_of option_back)
                          (paired bool_codec (paired text_codec bool_codec))))))))))))
      (λ m. (
        m.code,
        (
          m.username,
          (
            m.password,
            (
              m.path,
              (
                m.hash,
                (
                  m.paths,
                  (
                    m.hashes,
                    (
                      m.file_string,
                      (m.element_status, (m.comm_error, (m.status, (m.cookie, m.keep_alive)))),
                    ),
                  ),
                ),
              ),
            ),
          ),
        ),
      ))
      (λ p. record {
        code = p.0;
        username = p.1.0;
        password = p.1.1.0;
        path = p.1.1.1.0;
        hash = p.1.1.1.1.0;
        paths = p.1.1.1.1.1.0;
        hashes = p.1.1.1.1.1.1.0;
        file_string = p.1.1.1.1.1.1.1.0;
        element_status = p.1.1.1.1.1.1.1.1.0;
        comm_error = p.1.1.1.1.1.1.1.1.1.0;
        status = p.1.1.1.1.1.1.1.1.1.1.0;
        cookie = p.1.1.1.1.1.1.1.1.1.1.1.0;
        keep_alive = p.1.1.1.1.1.1.1.1.1.1.1.1;
      })
      (λ m. refl)

abbrev first_codec : {A : Type 0} → Option (A × Text) → Option A
first_codec none = none
first_codec (some (a, t)) = some a

abbrev pub numbers : Archive
numbers = record {
  save = saved_codec.encode;
  load = λ t. first_codec (saved_codec.decode t);
  load-save = λ s. ap first_codec (
      ap saved_codec.decode (sym (append-nil (saved_codec.encode s)))
      ∙ saved_codec.decode-encode s []);
}
