-- ===== src/Smtp/Replies.antt =====
-- The replies of `crates/carriers/src/smtp.rs` to a post and to a bounce.
use carriers.Base.{
  ℕ, zero, suc, Text, Bytes, Bool, true, false, not, ◌||◌, List, [], ◌∷◌, ◌++◌, map, codes, length,
  all, take, is_empty, trim, ◌==◌, nat_eq, Result, ok, err, ◌≤◌, arith, ◌≡◌, refl, ap, Bool-cases,
  inl, inr, length-take, All,
}
use carriers.Smtp.{
  blank_break, sanitize_smtp_reply_text, post_reply_text, bounce_reply_text, Outcome, distributed,
  held, discarded, rejected, Recipient, post, bounce, Services, reply_to, handle_one, handle_bounce,
  process,
}
use carriers.State.{AppState}
use carriers.Pipeline.{Ingress}

-- Neither a carriage return nor a line feed.
abbrev pub within_line : ℕ → Bool
within_line c = not ((c == b'\r') || (c == b'\n'))

within_line-blank_break : (c : ℕ) → within_line (blank_break c) ≡ true
within_line-blank_break c = ground arith

all_blank : (n : ℕ) (s : Text) → all within_line (take n (map blank_break s)) ≡ true
all_blank zero s = refl
all_blank (suc n) [] = refl
all_blank (suc n) (c ∷ s) = rw (within_line-blank_break c) (all_blank n s)

-- Any text becomes at most 200 characters on one line that are not all white space.
pub sanitize_smtp_reply_text_lem :
    (text : Text)
    → (all within_line (sanitize_smtp_reply_text text) ≡ true)
      × ((length (sanitize_smtp_reply_text text) ≤ 200)
          × (is_empty (trim (sanitize_smtp_reply_text text)) ≡ false))
unfolding sanitize_smtp_reply_text
sanitize_smtp_reply_text_lem text =
    let cleaned = take 200 (map blank_break text) in
    elim (Bool-cases (is_empty (trim cleaned))) [
      | inl h ↦ rw h (refl, (omega arith, unfold trim in refl))
      | inr h ↦ rw h (all_blank 200 text, (length-take 200 (map blank_break text), h))
    ]

-- A reply of one line: text without a line break, and the line break that ends it.
abbrev pub IsReply : Text → Type 0
IsReply reply = (body : Text) × ((reply ≡ body ++ codes "\r\n") × (all within_line body ≡ true))

all-append :
    (s t : Text)
    → all within_line s ≡ true
    → all within_line t ≡ true
    → all within_line (s ++ t) ≡ true
all-append [] t h k = k
all-append (c ∷ s) t h k = ground (arith, all-append s t)

rejected-IsReply : (reason : Text) → IsReply (post_reply_text (ok (rejected reason)))
unfolding post_reply_text
rejected-IsReply reason = (
  codes "550 5.7.1 " ++ sanitize_smtp_reply_text reason,
  (
    refl,
    all-append (codes "550 5.7.1 ") (sanitize_smtp_reply_text reason) refl
        (sanitize_smtp_reply_text_lem reason).0,
  ),
)

post_reply_text-IsReply : (r : Result Outcome) → IsReply (post_reply_text r)
unfolding post_reply_text
post_reply_text-IsReply (ok (distributed n)) = (codes "250 2.6.0 Message accepted", (refl, refl))
post_reply_text-IsReply (ok (held n)) =
    (codes "250 2.6.0 Message accepted (held for moderation)", (refl, refl))
post_reply_text-IsReply (ok (discarded reason)) =
    (codes "250 2.6.0 Message accepted (not distributed)", (refl, refl))
post_reply_text-IsReply (ok (rejected reason)) = rejected-IsReply reason
post_reply_text-IsReply (err e) = (codes "451 4.3.0 Temporary processing failure", (refl, refl))

bounce_reply_text-IsReply : (r : Result (Unit {0})) → IsReply (bounce_reply_text r)
unfolding bounce_reply_text
bounce_reply_text-IsReply (ok _) = (codes "250 2.1.5 Bounce recorded", (refl, refl))
bounce_reply_text-IsReply (err e) = (codes "451 4.3.0 Could not record bounce", (refl, refl))

module _ {F Key W : Type 0} (services : Services F Key W) (state : AppState F Key) where
  reply_to-IsReply :
      (r : Recipient Key) (ingress : Ingress) (raw : Bytes) (w : W)
      → IsReply (reply_to services state r ingress raw w).0
  unfolding reply_to
  reply_to-IsReply (post list) ingress raw w =
      post_reply_text-IsReply (handle_one services state list ingress raw w).0
  reply_to-IsReply (bounce list address) ingress raw w =
      bounce_reply_text-IsReply (handle_bounce services state list address raw w).0

  -- Whatever the services return, each recipient of a message gets one reply, and each reply is one
  -- line: the reason of a rejection, which may echo the message, cannot add another.
  pub process-IsReply :
      (recipients : List (Recipient Key)) (ingress : Ingress) (raw : Bytes) (w : W)
      → (length (process services state recipients ingress raw w).0 ≡ length recipients)
        × All IsReply (process services state recipients ingress raw w).0
  unfolding process
  process-IsReply [] ingress raw w = (refl, tt)
  process-IsReply (r ∷ recipients) ingress raw w =
      let rest =
        process-IsReply recipients ingress raw (reply_to services state r ingress raw w).1 in
      (ap suc rest.0, (reply_to-IsReply r ingress raw w, rest.1))
