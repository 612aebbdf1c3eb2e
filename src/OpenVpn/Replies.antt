-- ===== src/OpenVpn/Replies.antt =====
-- Replies go to the commands that wait, in order, whatever events come in between.
use dvpnd.Prelude.{
  ◌≡◌, refl, ap, ◌∙◌, sym, Bool, true, false, List, [], ◌∷◌, ◌++◌, Bytes, All, if◌then◌else◌,
  Bool-cases, inl, inr,
}
use mathlib.Core.List.{append_assoc, append-nil}
use dvpnd.Prelude.Text.{ascii}
use dvpnd.Prelude.Slices.{has_prefix}
use dvpnd.OpenVpn.Management.{
  Pending, Queue, Management, ends_reply, with_line, routed, reply_line, read_line, read_lines,
}

-- The lines that belong to replies.
unfoldable pub reply_lines : List Bytes → List Bytes
unfolding has_prefix ascii
reply_lines [] = []
reply_lines (line ∷ lines) =
    let rest = reply_lines lines in if has_prefix line (ascii ">") then rest else line ∷ rest

-- A complete reply: the lines before the one that ends it.
pub record Reply : Type 0 where
  pub body : List Bytes
  pub end : Bytes

abbrev pub lines_of : Reply → List Bytes
lines_of r = r.body ++ (r.end ∷ [])

unfoldable pub all_lines : List Reply → List Bytes
all_lines [] = []
all_lines (r ∷ rs) = r.body ++ (r.end ∷ all_lines rs)

-- The replies end where the commands say that they end.
abbrev pub Answers : List Pending → List Reply → Type 0
Answers [] [] = Unit
Answers [] (r ∷ rs) = ⊥
Answers (p ∷ ps) [] = ⊥
Answers (p ∷ ps) (r ∷ rs) =
    All (λ line. ends_reply p.multi line ≡ false) r.body
    × (ends_reply p.multi r.end ≡ true)
    × Answers ps rs

-- The commands with the lines of their replies.
abbrev pub answered : List Pending → List Reply → List Pending
answered (p ∷ ps) (r ∷ rs) =
    record { multi = p.multi; lines = p.lines ++ lines_of r } ∷ answered ps rs
answered _ _ = []

route_all : List Bytes → Queue → Queue
route_all [] q = q
route_all (line ∷ lines) q = route_all lines (reply_line line q)

-- The event that is being read has no part in the routing.
module _ (on_connect : Bytes → Bool) where
  read_lines-route :
      (lines : List Bytes) (m : Management)
      → (read_lines on_connect lines m).0.queue ≡ route_all (reply_lines lines) m.queue
  unfolding read_lines reply_lines read_line route_all
  read_lines-route [] m = refl
  read_lines-route (line ∷ lines) m = elim (Bool-cases (has_prefix line (ascii ">"))) [
    | inl y ↦ rw y (read_lines-route lines _)
    | inr k ↦ rw k (read_lines-route lines _)
  ]

-- The first command with one more line, whose reply goes on.
reply_line-within :
    (line : Bytes) (q : Queue) (p : Pending) (ps : List Pending)
    → q.pending ≡ p ∷ ps
    → ends_reply p.multi line ≡ false
    → reply_line line q ≡ record q { pending = with_line p line ∷ ps }
unfolding reply_line routed
reply_line-within line q p ps e h = ap (routed line q) e ∙ rw h refl

reply_line-last :
    (line : Bytes) (q : Queue) (p : Pending) (ps : List Pending)
    → q.pending ≡ p ∷ ps
    → ends_reply p.multi line ≡ true
    → reply_line line q ≡ record { pending = ps; closed = q.closed ++ (with_line p line ∷ []) }
unfolding reply_line routed
reply_line-last line q p ps e h = ap (routed line q) e ∙ rw h refl

with_lines : Pending → List Bytes → Pending
with_lines p lines = record p { lines = p.lines ++ lines }

abbrev queue_of : List Pending → List Pending → Queue
queue_of ps cs = record { pending = ps; closed = cs }

-- One reply, up to its last line.
route_all-reply :
    (body : List Bytes) (last : Bytes) (rest : List Bytes) (p : Pending) (ps cs : List Pending)
    → All (λ line. ends_reply p.multi line ≡ false) body
    → ends_reply p.multi last ≡ true
    → route_all (body ++ (last ∷ rest)) (queue_of (p ∷ ps) cs)
      ≡ route_all rest (queue_of ps (cs ++ (with_lines p (body ++ (last ∷ [])) ∷ [])))
unfolding route_all with_lines
route_all-reply [] last rest p ps cs h e =
    ap (route_all rest) (reply_line-last last (queue_of (p ∷ ps) cs) p ps refl e)
route_all-reply (line ∷ body) last rest p ps cs h e =
    ap (route_all (body ++ (last ∷ rest)))
      (reply_line-within line (queue_of (p ∷ ps) cs) p ps refl h.0)
    ∙ route_all-reply body last rest (with_line p line) ps cs h.1 e
    ∙ ap (λ ls. route_all rest (queue_of ps (cs ++ (record { multi = p.multi; lines = ls } ∷ []))))
        (append_assoc p.lines (line ∷ []) (body ++ (last ∷ [])))

-- The replies one after the other.
route_all-replies :
    (ps : List Pending) (rs : List Reply) (qs cs : List Pending)
    → Answers ps rs
    → route_all (all_lines rs) (queue_of (ps ++ qs) cs) ≡ queue_of qs (cs ++ answered ps rs)
unfolding all_lines route_all with_lines
route_all-replies [] [] qs cs h = ap (queue_of qs) (sym (append-nil cs))
route_all-replies [] (r ∷ rs) qs cs h = elim h [ ]
route_all-replies (p ∷ ps) [] qs cs h = elim h [ ]
route_all-replies (p ∷ ps) (r ∷ rs) qs cs h =
    route_all-reply r.body r.end (all_lines rs) p (ps ++ qs) cs h.0 h.1
    ∙ route_all-replies ps rs qs _ h.2
    ∙ ap (queue_of qs) (append_assoc cs (_ ∷ []) (answered ps rs))

-- When the lines of replies, events left out, are complete replies to the commands at the head of
-- the queue, one after the other, then reading all the lines, whatever events come in between,
-- closes those commands in order, each with the lines of its own reply, and leaves the others
-- waiting.
pub read_lines-answered :
    (on_connect : Bytes → Bool) (lines : List Bytes) (m : Management)
    → (ps qs : List Pending) (rs : List Reply) → m.queue.pending ≡ ps ++ qs
    → reply_lines lines ≡ all_lines rs
    → Answers ps rs
    → (read_lines on_connect lines m).0.queue
      ≡ record { pending = qs; closed = m.queue.closed ++ answered ps rs }
read_lines-answered on_connect lines m ps qs rs w e h =
    read_lines-route on_connect lines m
    ∙ ap (λ ls. route_all ls m.queue) e
    ∙ ap (λ p. route_all (all_lines rs) (queue_of p m.queue.closed)) w
    ∙ route_all-replies ps rs qs m.queue.closed h
