-- ===== src/Client/WebSocket/Accepting.antt =====
-- Which messages accept a batch.
use weighing_data_sync.Prelude.{
  ◌∙◌, codes, ℕ, ◌≡◌, refl, ap, subst, ◌⊎◌, inl, inr, true, false, Bool-cases, none, some,
  Option-cases, List, [], ◌∷◌, map, Text, text_eq, text_eq_sound, unwrap_or, arith,
}
use weighing_data_sync.Anyhow.{ok, is_ok, ok_injective, chain_ok, with_context-eq-ok}
use weighing_data_sync.Text.{trim, to_lower, eq_ignore_ascii_case}
use weighing_data_sync.Json.{Value, null, bool, number, string, array, object, Fields, lookup}
use weighing_data_sync.Json.Read.{read_bool, read_text, read_usize, read_list}
use weighing_data_sync.Client.WebSocket.Ack.{
  WebSocketAck, AckEnvelope, read_envelope, success_words, is_one_of, word_is_success,
  status_is_success, ack_from_status, verdict, ack_from_envelope, ack_from_value,
}
use weighing_data_sync.Client.WebSocket.Laws.{ack_from_envelope_iff}
use weighing_data_sync.Client.WebSocket.Session.{Formats}

-- The texts that are one of the words in any case.
abbrev pub IsOneOf : List Text → Text → Type 0
IsOneOf [] s = ⊥
IsOneOf (w ∷ ws) s = (map to_lower s ≡ map to_lower w) ⊎ IsOneOf ws s

-- The status, without white space at its ends, is a word for a success.
abbrev pub IsSuccess : Text → Type 0
IsSuccess status = IsOneOf success_words (trim status)

-- The first of `accepted`, `ok`, `success` that is given is true; where none is given, the status is
-- a word for a success.
pub data SaysYes (e : AckEnvelope) : Type 0 where
  by_accepted : e.accepted ≡ some true → SaysYes e
  by_ok : e.accepted ≡ none → e.ok_field ≡ some true → SaysYes e
  by_success : e.accepted ≡ none → e.ok_field ≡ none → e.success ≡ some true → SaysYes e
  by_status :
      {status : Text}
      → e.accepted ≡ none
      → e.ok_field ≡ none
      → e.success ≡ none
      → e.status ≡ some status
      → IsSuccess status
      → SaysYes e

-- The envelope has what stands in an object under the names of its fields.
pub record IsEnvelope (fs : Fields) (e : AckEnvelope) : Type 0 where
  pub accepted : read_bool (lookup (codes "accepted") fs) ≡ ok e.accepted
  pub ok_field : read_bool (lookup (codes "ok") fs) ≡ ok e.ok_field
  pub success : read_bool (lookup (codes "success") fs) ≡ ok e.success
  pub status : read_text (lookup (codes "status") fs) ≡ ok e.status
  pub received : read_usize (lookup (codes "received") fs) ≡ ok e.received
  pub message : read_text (lookup (codes "message") fs) ≡ ok e.message
  pub failed : read_usize (lookup (codes "failed") fs) ≡ ok e.failed
  pub failed_ids : read_list (lookup (codes "failed_ids") fs) ≡ ok e.failed_ids

-- The JSON values that accept a batch, with what is known from them.
pub data Accepting : Value → WebSocketAck → Type 0 where
  plain_yes : Accepting (bool true) (record { accepted = true; received = none; message = none })
  word :
      {status : Text}
      → IsSuccess status
      → Accepting (string status) (record { accepted = true; received = none; message = none })
  envelope :
      {fs : Fields} {e : AckEnvelope}
      → IsEnvelope fs e
      → unwrap_or e.failed 0 ≡ 0
      → e.failed_ids ≡ []
      → SaysYes e
      → Accepting
          (object fs)
          (record { accepted = true; received = e.received; message = e.message })

is_one_of-IsOneOf : (ws : List Text) (s : Text) → is_one_of ws s ≡ true → IsOneOf ws s
unfolding is_one_of eq_ignore_ascii_case
is_one_of-IsOneOf [] s h = cc
is_one_of-IsOneOf (w ∷ ws) s h = elim (Bool-cases (text_eq (map to_lower s) (map to_lower w))) [
  | inl same ↦ inl (text_eq_sound (map to_lower s) (map to_lower w) same)
  | inr other ↦ inr (is_one_of-IsOneOf ws s (rw other at h))
]

word_is_success-IsOneOf : (s : Text) → word_is_success s ≡ some true → IsOneOf success_words s
unfolding word_is_success
word_is_success-IsOneOf s h = is_one_of-IsOneOf success_words s (ground arith)

verdict-SaysYes : (e : AckEnvelope) → verdict e ≡ some true → SaysYes e
unfolding verdict status_is_success
verdict-SaysYes e h = elim (Option-cases e.accepted) [
  | inr (b, given) ↦ by_accepted (ground arith)
  | inl no_accepted ↦ elim (Option-cases e.ok_field) [
    | inr (b, given) ↦ by_ok no_accepted (ground arith)
    | inl no_ok ↦ elim (Option-cases e.success) [
      | inr (b, given) ↦ by_success no_accepted no_ok (ground arith)
      | inl no_success ↦ elim (Option-cases e.status) [
        | inl no_status ↦ ground arith
        | inr (status, given) ↦
            by_status no_accepted no_ok no_success given
              (word_is_success-IsOneOf (trim status) (ground arith))
      ]
    ]
  ]
]

ack_from_status-Accepting :
    (status : Text) (a : WebSocketAck)
    → ack_from_status status none none ≡ ok a
    → Accepting (string status) a
unfolding ack_from_status status_is_success
ack_from_status-Accepting status a h =
    let accepts : word_is_success (trim status) ≡ some true = ground arith in
    let same : Path WebSocketAck (record { accepted = true; received = none; message = none }) a =
      ground arith in
    subst (Accepting (string status)) same (word (word_is_success-IsOneOf (trim status) accepts))

read_envelope-IsEnvelope :
    (fs : Fields) (e : AckEnvelope) → read_envelope fs ≡ ok e → IsEnvelope fs e
unfolding read_envelope
read_envelope-IsEnvelope fs e h =
    let (a, ha, h1) = chain_ok (read_bool (lookup (codes "accepted") fs)) _ e h in
    let (b, hb, h2) = chain_ok (read_bool (lookup (codes "ok") fs)) _ e h1 in
    let (c, hc, h3) = chain_ok (read_bool (lookup (codes "success") fs)) _ e h2 in
    let (d, hd, h4) = chain_ok (read_text (lookup (codes "status") fs)) _ e h3 in
    let (r, hr, h5) = chain_ok (read_usize (lookup (codes "received") fs)) _ e h4 in
    let (m, hm, h6) = chain_ok (read_text (lookup (codes "message") fs)) _ e h5 in
    let (n, hn, h7) = chain_ok (read_usize (lookup (codes "failed") fs)) _ e h6 in
    let (ids, hids, h8) = chain_ok (read_list (lookup (codes "failed_ids") fs)) _ e h7 in
    let same = ok_injective _ _ _ refl h8 in
    record {
      accepted = ha ∙ ap (λ e. ok (e.accepted)) same;
      ok_field = hb ∙ ap (λ e. ok (e.ok_field)) same;
      success = hc ∙ ap (λ e. ok (e.success)) same;
      status = hd ∙ ap (λ e. ok (e.status)) same;
      received = hr ∙ ap (λ e. ok (e.received)) same;
      message = hm ∙ ap (λ e. ok (e.message)) same;
      failed = hn ∙ ap (λ e. ok (e.failed)) same;
      failed_ids = hids ∙ ap (λ e. ok (e.failed_ids)) same;
    }

ack_from_envelope-Accepting :
    (show : ℕ → Text) (fs : Fields) (e : AckEnvelope) (a : WebSocketAck)
    → read_envelope fs ≡ ok e
    → ack_from_envelope show e ≡ ok a
    → Accepting (object fs) a
unfolding ack_from_envelope
ack_from_envelope-Accepting show fs e a reads h =
    let (none_failed, no_ids, says) = (ack_from_envelope_iff show e).0 (ap is_ok h) in
    let same : Path WebSocketAck
        (record { accepted = true; received = e.received; message = e.message }) a =
      ground arith in
    subst (Accepting (object fs)) same
      (envelope (read_envelope-IsEnvelope fs e reads) none_failed no_ids (verdict-SaysYes e says))

pub ack_from_value-Accepting :
    (f : Formats) (v : Value) (a : WebSocketAck)
    → ack_from_value f.show f.show_value v ≡ ok a
    → Accepting v a
unfolding ack_from_value
ack_from_value-Accepting f null a h = cc
ack_from_value-Accepting f (bool true) a h =
    let same : Path WebSocketAck (record { accepted = true; received = none; message = none }) a =
      ground arith in
    subst (Accepting (bool true)) same plain_yes
ack_from_value-Accepting f (bool false) a h = cc
ack_from_value-Accepting f (number n) a h = cc
ack_from_value-Accepting f (string status) a h = ack_from_status-Accepting status a h
ack_from_value-Accepting f (array vs) a h = cc
ack_from_value-Accepting f (object fs) a h =
    let (e, read, parsed) = chain_ok _ (ack_from_envelope f.show) a h in
    ack_from_envelope-Accepting f.show fs e a (with_context-eq-ok _ _ read) parsed
