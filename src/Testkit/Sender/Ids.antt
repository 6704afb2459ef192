-- ===== src/Testkit/Sender/Ids.antt =====
-- The message ids of `build` in `crates/carriers-testkit/src/sender.rs`: no two messages of one run
-- have the same, whatever the clock reads.
use carriers.Base.{
  ℕ, zero, suc, all-append, rsplit_once, trim_end_of, trim_start_of, ◌+◌, ◌^◌, ◌<◌, Text, Bytes,
  Bool, true, false, ◌&&◌, Option, none, some, List, [], ◌∷◌, ◌++◌, map, all, codes, length, drop,
  show, is_digit, all-digits, show-injective, as_bytes, if◌then◌else◌, nat_eq, text_eq, text_beq_ne,
  arith, ◌≡◌, ◌≢◌, refl, sym, ap, ◌∙◌,
}
use mathlib.Core.List.{append_assoc, append-nil, reverse, reverse-cons}
use carriers.Base.Maybe.{unwrap_or}
use carriers.Store.Order.{contains, IsDistinct}
use carriers.Testkit.Sender.{
  Draft, build, headers, message_id, closed, ends_crlf, field, from_domain, normalize_crlf,
  extra_fields,
}
use carriers.Testkit.Sender.Sent.{cut_lines}
use carriers.Testkit.Sender.Lines.{is_plain, cut_lines-field}

abbrev pub nth_line : ℕ → List Bytes → Bytes
nth_line n [] = []
nth_line zero (l ∷ ls) = l
nth_line (suc n) (l ∷ ls) = nth_line n ls

-- The fifth line of a message, that of its id.
abbrev pub id_line : Bytes → Bytes
id_line raw = nth_line 4 (cut_lines raw)

-- The messages that are built one after another, with what the clock reads at each.
unfoldable pub build_all : List (Draft × Option ℕ) → ℕ → List Bytes
unfolding build
build_all [] seq = []
build_all ((draft, nanos) ∷ drafts) seq =
    let (raw, seq') = build draft nanos seq in raw ∷ build_all drafts seq'

abbrev pub plain_draft : Draft → Bool
plain_draft draft = all is_plain draft.from && (all is_plain draft.to && all is_plain draft.subject)

take_digits : Text → Text
take_digits [] = []
take_digits (c ∷ s) = if is_digit c then c ∷ take_digits s else []

-- Digits end where another character stands.
take_digits-append :
    (s t : Text) (c : ℕ)
    → all is_digit s ≡ true
    → is_digit c ≡ false
    → take_digits (s ++ (c ∷ t)) ≡ s
unfolding take_digits
take_digits-append [] t c h n = ground arith
take_digits-append (x ∷ s) t c h n = ground (arith, take_digits-append s t c)

drop_digits : Text → Text
drop_digits [] = []
drop_digits (c ∷ s) = if is_digit c then drop_digits s else c ∷ s

drop_digits-append :
    (s t : Text) (c : ℕ)
    → all is_digit s ≡ true
    → is_digit c ≡ false
    → drop_digits (s ++ (c ∷ t)) ≡ c ∷ t
unfolding drop_digits
drop_digits-append [] t c h n = ground arith
drop_digits-append (x ∷ s) t c h n = ground (arith, drop_digits-append s t c)

tail : Text → Text
tail [] = []
tail (c ∷ s) = s

-- The counter read back from the line of an id.
line_seq : Text → Text
unfolding take_digits drop_digits tail
line_seq line = take_digits (tail (drop_digits (drop 13 line)))

abbrev id_field : Option ℕ → ℕ → Text → Text
unfolding message_id
id_field nanos seq from = field (codes "Message-ID") (message_id nanos seq from)

line_seq-id_field :
    (nanos : Option ℕ) (seq : ℕ) (from : Text) → line_seq (id_field nanos seq from) ≡ show seq
unfolding line_seq id_field message_id
line_seq-id_field nanos seq from =
    let n = unwrap_or nanos 0 in
    let end = from_domain from ++ codes ">" in
    let shape : (show n ++ (codes "." ++ (show seq ++ (codes "@" ++ end)))) ++ codes "\r\n"
        ≡ show n ++ (codes "." ++ (show seq ++ (codes "@" ++ (end ++ codes "\r\n")))) =
      append_assoc (show n) (codes "." ++ (show seq ++ (codes "@" ++ end))) (codes "\r\n")
      ∙ ap (λ r. show n ++ (codes "." ++ r))
          (append_assoc (show seq) (codes "@" ++ end) (codes "\r\n")) in
    rw
      (
        shape,
        drop_digits-append (show n) (show seq ++ (codes "@" ++ (end ++ codes "\r\n"))) b'.'
            (all-digits n n) refl,
      )
      (take_digits-append (show seq) (end ++ codes "\r\n") b'@' (all-digits seq seq) refl)

-- The parts of an id are plain if the author's address is.
abbrev second : Option (Text × Text) → Text
second none = []
second (some (a, b)) = b

all-rsplit_once :
    (p : ℕ → Bool) (c : ℕ) (s : Text) → all p s ≡ true → all p (second (rsplit_once c s)) ≡ true
unfolding rsplit_once
all-rsplit_once p c [] h = refl
all-rsplit_once p c (x ∷ s) h = ground (arith, all-rsplit_once p c s)

all-reverse : (p : ℕ → Bool) (s : Text) → all p s ≡ true → all p (reverse s) ≡ true
all-reverse p [] h = refl
all-reverse p (x ∷ s) h =
    rw (reverse-cons x s)
      (all-append p (reverse s) (x ∷ []) (all-reverse p s (ground arith)) (ground arith))

all-trim_start_of :
    (p : ℕ → Bool) (d : ℕ) (s : Text) → all p s ≡ true → all p (trim_start_of d s) ≡ true
unfolding trim_start_of
all-trim_start_of p d [] h = refl
all-trim_start_of p d (x ∷ s) h = ground (arith, all-trim_start_of p d s)

all-trim_end_of :
    (p : ℕ → Bool) (d : ℕ) (s : Text) → all p s ≡ true → all p (trim_end_of d s) ≡ true
unfolding trim_end_of
all-trim_end_of p d s h =
    all-reverse p (trim_start_of d (reverse s))
      (all-trim_start_of p d (reverse s) (all-reverse p s h))

all-from_domain : (from : Text) → all is_plain from ≡ true → all is_plain (from_domain from) ≡ true
unfolding from_domain
all-from_domain from h = go (rsplit_once b'@' from) (all-rsplit_once is_plain b'@' from h)
  where
    go :
        (o : Option (Text × Text))
        → all is_plain (second o) ≡ true
        → all is_plain (elim o [ none ↦ codes "example.com" | some (_, d) ↦ trim_end_of b'>' d ])
          ≡ true
    go none k = refl
    go (some (a, d)) k = all-trim_end_of is_plain b'>' d k

all-plain_digits : (s : Text) → all is_digit s ≡ true → all is_plain s ≡ true
all-plain_digits [] h = refl
all-plain_digits (c ∷ s) h = ground (arith, all-plain_digits s)

-- An id is plain if the author's address is.
all-message_id :
    (nanos : Option ℕ) (seq : ℕ) (from : Text)
    → all is_plain from ≡ true
    → all is_plain (message_id nanos seq from) ≡ true
unfolding message_id
all-message_id nanos seq from h =
    let n = unwrap_or nanos 0 in
    all-append is_plain (show n)
      (codes "." ++ (show seq ++ (codes "@" ++ (from_domain from ++ codes ">"))))
      (all-plain_digits (show n) (all-digits n n))
      (all-append is_plain (show seq) (codes "@" ++ (from_domain from ++ codes ">"))
        (all-plain_digits (show seq) (all-digits seq seq))
        (all-append is_plain (from_domain from) (codes ">") (all-from_domain from h) refl))

closed-tail : (out : Bytes) → (t : Bytes) × (closed out ≡ out ++ t)
closed-tail out =
    elim (ends_crlf out)
      as (λ b. (t : Bytes) × ((if b then out else out ++ codes "\r\n") ≡ out ++ t)) [
        | true ↦ ([], sym (append-nil out))
        | false ↦ (codes "\r\n", refl)
      ]

id_line-headers :
    (draft : Draft) (id : Text) (tail : Bytes)
    → plain_draft draft ≡ true
    → all is_plain id ≡ true
    → id_line (as_bytes (headers draft id) ++ tail) ≡ field (codes "Message-ID") id
unfolding headers
id_line-headers draft id tail h k =
    let r5 = field (codes "MIME-Version") (codes "1.0") ++ extra_fields draft.extra_headers in
    let r4 = field (codes "Message-ID") id ++ r5 in
    let r3 = field (codes "Date") (codes "Mon, 06 Jul 2026 10:00:00 +0000") ++ r4 in
    let r2 = field (codes "Subject") draft.subject ++ r3 in
    let r1 = field (codes "To") draft.to ++ r2 in
    let l1 = cut_lines-field (codes "From") draft.from r1 tail refl (ground arith) in
    let l2 = cut_lines-field (codes "To") draft.to r2 tail refl (ground arith) in
    let l3 = cut_lines-field (codes "Subject") draft.subject r3 tail refl (ground arith) in
    let l4 =
      cut_lines-field (codes "Date") (codes "Mon, 06 Jul 2026 10:00:00 +0000") r4 tail refl refl in
    let l5 = cut_lines-field (codes "Message-ID") id r5 tail refl k in
    ap (nth_line 4) l1
    ∙ ap (nth_line 3) l2
    ∙ ap (nth_line 2) l3
    ∙ ap (nth_line 1) l4
    ∙ ap (nth_line 0) l5

id_line-build :
    (draft : Draft) (nanos : Option ℕ) (seq : ℕ)
    → plain_draft draft ≡ true
    → id_line (build draft nanos seq).0
      ≡ field (codes "Message-ID") (message_id nanos seq draft.from)
unfolding build
id_line-build draft nanos seq h =
    let id = message_id nanos seq draft.from in
    let head = as_bytes (headers draft id) in
    let body = codes "\r\n" ++ normalize_crlf draft.body in
    let (t, e) = closed-tail (head ++ body) in
    ap id_line (e ∙ append_assoc head body t)
    ∙ id_line-headers draft id (body ++ t) h (all-message_id nanos seq draft.from (ground arith))

id_line-build_seq :
    (draft : Draft) (nanos : Option ℕ) (seq : ℕ)
    → plain_draft draft ≡ true
    → line_seq (id_line (build draft nanos seq).0) ≡ show seq
unfolding id_field
id_line-build_seq draft nanos seq h =
    ap line_seq (id_line-build draft nanos seq h) ∙ line_seq-id_field nanos seq draft.from

abbrev all_plain : List (Draft × Option ℕ) → Bool
all_plain drafts = all (λ d. plain_draft d.0) drafts

build_all-cons :
    (draft : Draft) (nanos : Option ℕ) (drafts : List (Draft × Option ℕ)) (seq : ℕ)
    → seq + 1 < 2 ^ 64
    → build_all ((draft, nanos) ∷ drafts) seq
      ≡ (build draft nanos seq).0 ∷ build_all drafts (seq + 1)
unfolding build_all build
build_all-cons draft nanos drafts seq h =
    ap (λ n. (build draft nanos seq).0 ∷ build_all drafts n) (omega arith)

-- A line whose counter came before is not among the later ones.
contains-build_all :
    (drafts : List (Draft × Option ℕ)) (line : Text) (earlier seq : ℕ)
    → all_plain drafts ≡ true
    → seq + length drafts < 2 ^ 64
    → line_seq line ≡ show earlier
    → earlier < seq
    → contains line (map id_line (build_all drafts seq)) ≡ false
contains-build_all [] line earlier seq h b e l = unfold build_all in refl
contains-build_all ((draft, nanos) ∷ drafts) line earlier seq h b e l =
    let raw = (build draft nanos seq).0 in
    let other : id_line raw ≢ line = λ same.
      let equal =
        show-injective seq earlier
          (sym (id_line-build_seq draft nanos seq (ground arith)) ∙ ap line_seq same ∙ e) in
      omega arith in
    let later =
      contains-build_all drafts line earlier (seq + 1) (ground arith) (omega arith) e
        (omega arith) in
    rw (build_all-cons draft nanos drafts seq (omega arith), text_beq_ne (id_line raw) line other)
      later

-- The lines of the message ids of the messages that one run builds are pairwise distinct, whatever
-- the clock reads at each, if the addresses and subjects of the drafts are ASCII without line
-- feeds and fewer than 2^64 messages are built.
pub build_all-IsDistinct :
    (drafts : List (Draft × Option ℕ)) (seq : ℕ)
    → all_plain drafts ≡ true
    → seq + length drafts < 2 ^ 64
    → IsDistinct (map id_line (build_all drafts seq))
build_all-IsDistinct [] seq h b = unfold build_all in tt
build_all-IsDistinct ((draft, nanos) ∷ drafts) seq h b =
    let raw = (build draft nanos seq).0 in
    rw (build_all-cons draft nanos drafts seq (omega arith)) (
      contains-build_all drafts (id_line raw) seq (seq + 1) (ground arith) (omega arith)
          (id_line-build_seq draft nanos seq (ground arith)) (omega arith),
      build_all-IsDistinct drafts (seq + 1) (ground arith) (omega arith),
    )
