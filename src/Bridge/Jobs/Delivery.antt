-- ===== src/Bridge/Jobs/Delivery.antt =====
-- What a stream sends is the history of its job, in order, and then it ends.
use wordpress.Common.{
  Bool, List, Option, [], ap, append-nil, append_assoc, arith, false, keep, map, none, refl, some,
  sym, true, ◌++◌, ◌||◌, ◌∙◌, ◌∷◌, ◌≡◌,
}
use wordpress.Bridge.Jobs.{JobEvent, Stream, end_stream, hear, heartbeat_event}
use wordpress.Bridge.Jobs.Streams.{beat, close_stream, pull, pull_queue}

abbrev pub is_real : JobEvent → Bool
is_real heartbeat_event = false
is_real _ = true

-- The events without the heartbeats.
unfoldable pub real : List JobEvent → List JobEvent
real es = keep is_real es

-- The events of a queue before its end, and whether it has an end.
unfoldable pub waiting : List (Option JobEvent) → List JobEvent
waiting [] = []
waiting (none ∷ q) = []
waiting (some e ∷ q) = e ∷ waiting q

unfoldable pub has_end : List (Option JobEvent) → Bool
has_end [] = false
has_end (none ∷ q) = true
has_end (some e ∷ q) = has_end q

-- A stream by its fields: one that listens has sent or will send the whole history, one that does not
-- listen will send a part from the beginning and then end, one that has returned has sent such a part.
unfoldable pub FollowsAs :
    List JobEvent → Bool → Bool → List JobEvent → List (Option JobEvent) → Type 0
FollowsAs es true true sent q = ⊥
FollowsAs es true false sent q = (real sent ++ real (waiting q) ≡ real es) × (has_end q ≡ false)
FollowsAs es false false sent q =
    ((rest : List JobEvent) × (real sent ++ (real (waiting q) ++ rest) ≡ real es))
    × (has_end q ≡ true)
FollowsAs es false true sent q = (rest : List JobEvent) × (real sent ++ rest ≡ real es)

unfoldable pub Follows : List JobEvent → Stream → Type 0
unfolding FollowsAs
Follows es s = FollowsAs es s.listening s.returned s.sent s.queue

real-append : (es fs : List JobEvent) → real (es ++ fs) ≡ real es ++ real fs
unfolding real
real-append [] fs = refl
real-append (e ∷ es) fs = ground (arith, real-append es fs)

waiting-append :
    (q : List (Option JobEvent)) (o : Option JobEvent)
    → has_end q ≡ false
    → waiting (q ++ o ∷ []) ≡ waiting q ++ waiting (o ∷ [])
unfolding waiting has_end
waiting-append [] o h = refl
waiting-append (none ∷ q) o h = ground (arith, h)
waiting-append (some e ∷ q) o h = ap (λ w. e ∷ w) (waiting-append q o h)

waiting-ended :
    (q : List (Option JobEvent)) (o : Option JobEvent)
    → has_end q ≡ true
    → waiting (q ++ o ∷ []) ≡ waiting q
unfolding waiting has_end
waiting-ended [] o h = ground (arith, h)
waiting-ended (none ∷ q) o h = refl
waiting-ended (some e ∷ q) o h = ap (λ w. e ∷ w) (waiting-ended q o h)

has_end-append :
    (q : List (Option JobEvent)) (o : Option JobEvent)
    → has_end (q ++ o ∷ []) ≡ (has_end q || has_end (o ∷ []))
unfolding has_end
has_end-append [] o = refl
has_end-append (none ∷ q) o = refl
has_end-append (some e ∷ q) o = has_end-append q o

waiting-map :
    (es : List JobEvent) (q : List (Option JobEvent)) → waiting (map some es ++ q) ≡ es ++ waiting q
unfolding waiting
waiting-map [] q = refl
waiting-map (e ∷ es) q = ap (λ w. e ∷ w) (waiting-map es q)

has_end-map :
    (es : List JobEvent) (q : List (Option JobEvent)) → has_end (map some es ++ q) ≡ has_end q
unfolding has_end
has_end-map [] q = refl
has_end-map (e ∷ es) q = has_end-map es q

append_mid : (a b c : List JobEvent) {d : List JobEvent} → a ++ b ≡ d → a ++ (b ++ c) ≡ d ++ c
append_mid a b c e = sym (append_assoc a b c) ∙ ap (λ x. x ++ c) e

-- A stream that hears an event follows the longer history; one that does not misses it.
pub Follows-hear :
    (e : JobEvent) (es : List JobEvent) (b r : Bool) (sent : List JobEvent)
    (q : List (Option JobEvent))
    → FollowsAs es b r sent q
    → Follows
        (es ++ e ∷ [])
        (hear (some e) (record { queue = q; listening = b; sent = sent; returned = r }))
unfolding hear Follows FollowsAs waiting has_end
Follows-hear e es true true sent q h = elim h [ ]
Follows-hear e es true false sent q (p, n) = (
  rw (waiting-append q (some e) n, real-append (waiting q) (e ∷ []), real-append es (e ∷ []))
      (append_mid (real sent) (real (waiting q)) (real (e ∷ [])) p),
  has_end-append q (some e) ∙ ground (arith, n),
)
Follows-hear e es false false sent q ((rest, p), n) = (
  (
    rest ++ real (e ∷ []),
    rw real-append (
        ap (λ x. real sent ++ x) (sym (append_assoc (real (waiting q)) rest (real (e ∷ []))))
        ∙ append_mid (real sent) (real (waiting q) ++ rest) (real (e ∷ [])) p),
  ),
  n,
)
Follows-hear e es false true sent q (rest, p) =
    (rest ++ real (e ∷ []), rw real-append (append_mid (real sent) rest (real (e ∷ [])) p))

-- The end of the listeners: the one that listens has its end in its queue.
pub Follows-end :
    (es : List JobEvent) (b r : Bool) (sent : List JobEvent) (q : List (Option JobEvent))
    → FollowsAs es b r sent q
    → Follows es (end_stream (record { queue = q; listening = b; sent = sent; returned = r }))
unfolding hear end_stream Follows FollowsAs waiting has_end real
Follows-end es true true sent q h = elim h [ ]
Follows-end es true false sent q (p, n) = (
  ([], rw (waiting-append q none n, append-nil, append-nil) p),
  has_end-append q none ∙ ground arith,
)
Follows-end es false r sent q h = h

-- A heartbeat adds nothing to what is told.
pub Follows-beat :
    (es : List JobEvent) (b r : Bool) (sent : List JobEvent) (q : List (Option JobEvent))
    → FollowsAs es b r sent q
    → Follows es (beat (record { queue = q; listening = b; sent = sent; returned = r }))
unfolding beat Follows FollowsAs waiting has_end real
Follows-beat es true true sent q h = elim h [ ]
Follows-beat es true false sent q (p, n) = (
  rw (waiting-append q (some heartbeat_event) n, real-append (waiting q) (heartbeat_event ∷ []))
      (rw append-nil p),
  has_end-append q (some heartbeat_event) ∙ ground (arith, n),
)
Follows-beat es false false sent q ((rest, p), n) = (
  (rest, rw (waiting-ended q (some heartbeat_event) n) p),
  has_end-append q (some heartbeat_event) ∙ ground (arith, n),
)
Follows-beat es false true sent q h = h

real-move :
    (sent w : List JobEvent) (e : JobEvent)
    → real (sent ++ e ∷ []) ++ real w ≡ real sent ++ real (e ∷ w)
real-move sent w e = rw (real-append sent (e ∷ [])) (
    append_assoc (real sent) (real (e ∷ [])) (real w)
    ∙ ap (λ x. real sent ++ x) (sym (real-append (e ∷ []) w)))

-- A round of the generator, and its end.
Follows-pull_queue :
    (es : List JobEvent) (b : Bool) (sent : List JobEvent) (q : List (Option JobEvent))
    → FollowsAs es b false sent q
    → Follows es (pull_queue q (record { queue = q; listening = b; sent = sent; returned = false }))
unfolding pull_queue close_stream Follows FollowsAs waiting has_end real
Follows-pull_queue es b sent [] h = h
Follows-pull_queue es true sent (none ∷ q) (p, n) = ground (arith, n)
Follows-pull_queue es false sent (none ∷ q) ((rest, p), n) = (rest, p)
Follows-pull_queue es true sent (some e ∷ q) (p, n) = (real-move sent (waiting q) e ∙ p, n)
Follows-pull_queue es false sent (some e ∷ q) ((rest, p), n) = (
  (
    rest,
    sym (append_assoc (real (sent ++ e ∷ [])) (real (waiting q)) rest)
        ∙ (ap (λ x. x ++ rest) (real-move sent (waiting q) e)
            ∙ (append_assoc (real sent) (real (e ∷ waiting q)) rest ∙ p)),
  ),
  n,
)

Follows-close :
    (es : List JobEvent) (b r : Bool) (sent : List JobEvent) (q : List (Option JobEvent))
    → FollowsAs es b r sent q
    → Follows es (close_stream (record { queue = q; listening = b; sent = sent; returned = r }))
unfolding close_stream Follows FollowsAs
Follows-close es true true sent q h = elim h [ ]
Follows-close es true false sent q (p, n) = (real (waiting q), p)
Follows-close es false false sent q ((rest, p), n) = (real (waiting q) ++ rest, p)
Follows-close es false true sent q h = h

pub Follows-pull :
    (es : List JobEvent) (aborted b r : Bool) (sent : List JobEvent) (q : List (Option JobEvent))
    → FollowsAs es b r sent q
    → Follows es (pull aborted (record { queue = q; listening = b; sent = sent; returned = r }))
unfolding pull Follows
Follows-pull es aborted b true sent q h = h
Follows-pull es true b false sent q h = Follows-close es b false sent q h
Follows-pull es false b false sent q h = Follows-pull_queue es b sent q h

waiting-all : (es : List JobEvent) → waiting (map some es) ≡ es
unfolding waiting
waiting-all [] = refl
waiting-all (e ∷ es) = ap (λ w. e ∷ w) (waiting-all es)

has_end-all : (es : List JobEvent) → has_end (map some es) ≡ false
unfolding has_end
has_end-all [] = refl
has_end-all (e ∷ es) = has_end-all es

-- The first state of a stream.
pub Follows-fresh : (es : List JobEvent) → FollowsAs es true false [] (map some es)
unfolding FollowsAs real
Follows-fresh es = (ap (λ w. keep is_real w) (waiting-all es), has_end-all es)

pub Follows-late : (es : List JobEvent) → FollowsAs es false false [] (map some es ++ none ∷ [])
unfolding FollowsAs real waiting has_end
Follows-late es =
    (([], rw (waiting-map es (none ∷ []), append-nil, append-nil) refl), has_end-map es (none ∷ []))
