-- ===== src/Events/Threads/Interleaving.antt =====
-- internal/middleware/accesslog.go: what overlapping requests leave on stdout.
use mathlib.Core.List.Permᴰ
use mathlib.Core.List.{reverse, reverse-cons, map-append}
use decision_gateway.Prelude.{
  ℕ, ◌+◌, ◌≤◌, ◌≡◌, refl, sym, ap, ◌∙◌, subst, ◌⊎◌, inl, inr, Bool, true, false, List, [], ◌∷◌,
  ◌++◌, map, Permᴰ, append_assoc, append-nil, arith, Text,
}
use decision_gateway.Prelude.Threads.{Among, here, there, total}
use decision_gateway.World.{World, AccessEntry}
use decision_gateway.Events.{Formats, entry_json, boot_json, encode_all, stdout}
use decision_gateway.Events.Printable.{IsFormat}
use decision_gateway.Events.Lines.{lines, stdout-lines}
use decision_gateway.Events.Threads.{
  Output, Turn, waiting, writing, finished, encoded, Turns, lock, put, unlock, Interleaves, start,
  spawn, step,
}

-- Between Lock and Unlock.
abbrev pub holds : Turn → ℕ
holds (writing e rest) = 1
holds _ = 0

-- What the goroutines between Lock and Unlock have left to write.
abbrev pub unwritten : List Turn → Text
unwritten [] = []
unwritten (writing e rest ∷ ts) = rest ++ unwritten ts
unwritten (waiting e ∷ ts) = unwritten ts
unwritten (finished e ∷ ts) = unwritten ts

-- The entries of the goroutines that got the mutex.
abbrev pub begun : List Turn → List AccessEntry
begun [] = []
begun (writing e rest ∷ ts) = e ∷ begun ts
begun (waiting e ∷ ts) = begun ts
begun (finished e ∷ ts) = e ∷ begun ts

abbrev pub held : Bool → ℕ
held true = 1
held false = 0

unwritten-idle : (ts : List Turn) → total holds ts ≡ 0 → unwritten ts ≡ []
unwritten-idle [] z = refl
unwritten-idle (writing e rest ∷ ts) z = absurd (omega arith)
unwritten-idle (waiting e ∷ ts) z = unwritten-idle ts (omega arith)
unwritten-idle (finished e ∷ ts) z = unwritten-idle ts (omega arith)

-- The whole output: what is there, and what is left to write.
abbrev pub whole : Output → List Turn → Text
whole o ts = o.out ++ unwritten ts

-- The state of a sequential run with these entries logged after its own.
abbrev pub with_logged : List AccessEntry → World → World
with_logged es s = record s { access_log = es ++ s.access_log }

-- What a step does to the whole output and to the entries, in a list of goroutines.
data Effect (f : Formats) (o : Output) (ts : List Turn) (o' : Output) (us : List Turn)
    : Type 0 where
  begins :
      (e : AccessEntry)
      → o'.logged ≡ e ∷ o.logged
      → whole o' us ≡ whole o ts ++ encoded f e
      → Permᴰ (e ∷ begun ts) (begun us)
      → Effect f o ts o' us
  goes_on :
      o'.logged ≡ o.logged → whole o' us ≡ whole o ts → begun us ≡ begun ts → Effect f o ts o' us

held-le : (b : Bool) → held b ≤ 1
held-le true = omega arith
held-le false = omega arith

module _ (f : Formats) where
  -- Only one goroutine takes the mutex or holds it.
  others-idle :
      {o o' : Output} {ts us : List Turn} (k : ℕ)
      → Among (Turns f) o ts o' us
      → held o.locked ≡ total holds ts + k
      → k ≡ 0
  others-idle k (here (lock g)) n = ground arith
  others-idle k (here (put {o})) n = omega (arith, held-le o.locked)
  others-idle k (here (unlock {o})) n = omega (arith, held-le o.locked)
  others-idle k (there {p} {ps} mv) n = omega (arith, others-idle (holds p + k) mv (omega arith))

  Among-count :
      {o o' : Output} {ts us : List Turn} (k : ℕ)
      → Among (Turns f) o ts o' us
      → held o.locked ≡ total holds ts + k
      → held o'.locked ≡ total holds us + k
  Among-count k (here (lock g)) n = ground arith
  Among-count k (here (put {o})) n = omega arith
  Among-count k (here (unlock {o})) n = omega (arith, held-le o.locked)
  Among-count k (there {p} mv) n = omega (arith, Among-count (holds p + k) mv (omega arith))

  Effect-there :
      (o o' : Output) (p : Turn) (ts us : List Turn)
      → holds p ≡ 0
      → Effect f o ts o' us
      → Effect f o (p ∷ ts) o' (p ∷ us)
  Effect-there o o' (waiting e) ts us z (begins e' l w b) = begins e' l w b
  Effect-there o o' (waiting e) ts us z (goes_on l w b) = goes_on l w b
  Effect-there o o' (writing e rest) ts us z eff = absurd (omega arith)
  Effect-there o o' (finished e) ts us z (begins e' l w b) =
      begins e' l w (Permᴰ.trans (Permᴰ.swap refl refl) (Permᴰ.cons refl b))
  Effect-there o o' (finished e) ts us z (goes_on l w b) = goes_on l w (ap (λ x. e ∷ x) b)

  Among-Effect :
      {o o' : Output} {ts us : List Turn} (k : ℕ)
      → Among (Turns f) o ts o' us
      → held o.locked ≡ total holds ts + k
      → Effect f o ts o' us
  Among-Effect k (here {ps} (lock {o} {e} g)) n =
      let idle = unwritten-idle ps (ground arith) in
      begins e refl
        (ap (λ u. o.out ++ (encoded f e ++ u)) idle
          ∙ ap (λ x. o.out ++ x) (append-nil (encoded f e))
          ∙ ap (λ x. x ++ encoded f e) (sym (append-nil o.out))
          ∙ ap (λ u. (o.out ++ u) ++ encoded f e) (sym idle))
        (Permᴰ.refl _)
  Among-Effect k (here {ps} (put {o} {e} {c} {rest})) n =
      goes_on refl (append_assoc o.out (c ∷ []) (rest ++ unwritten ps)) refl
  Among-Effect k (here (unlock {o} {e})) n = goes_on refl refl refl
  Among-Effect k (there {m} {m'} {p} {ps} {qs} mv) n =
      Effect-there m m' p ps qs (ground (arith, others-idle (holds p + k) mv (omega arith)))
        (Among-Effect (holds p + k) mv (omega arith))

encode_all-append : (vs ws : List Text) → encode_all (vs ++ ws) ≡ encode_all vs ++ encode_all ws
unfolding encode_all
encode_all-append [] ws = refl
encode_all-append (v ∷ vs) ws =
    rw (encode_all-append vs ws, append_assoc v (10 ∷ encode_all vs) (encode_all ws)) refl

stdout-with_logged :
    (f : Formats) (e : AccessEntry) (es : List AccessEntry) (s : World)
    → stdout f (with_logged (e ∷ es) s) ≡ stdout f (with_logged es s) ++ encoded f e
unfolding stdout encoded encode_all
stdout-with_logged f e es s =
    rw
      (
        reverse-cons e (es ++ s.access_log),
        map-append (entry_json f) (reverse (es ++ s.access_log)) (e ∷ []),
        encode_all-append (map (entry_json f) (reverse (es ++ s.access_log))) (entry_json f e ∷ []),
        append_assoc,
      )
      refl

pub record IsOrderly (f : Formats) (s : World) (o : Output) (ts : List Turn) : Type 0 where
  pub count : held o.locked ≡ total holds ts + 0
  content : whole o ts ≡ stdout f (with_logged o.logged s)
  entries : Permᴰ o.logged (begun ts)

pub Interleaves-IsOrderly :
    (f : Formats) (s : World) {o : Output} {ts : List Turn}
    → Interleaves f s o ts
    → IsOrderly f s o ts
Interleaves-IsOrderly f s start = record {
  count = refl;
  content = append-nil (stdout f s);
  entries = Permᴰ.nil;
}
Interleaves-IsOrderly f s (spawn e r) =
    let i = Interleaves-IsOrderly f s r in
    record { count = omega (arith, i.count); content = i.content; entries = i.entries }
Interleaves-IsOrderly f s (step {o} {o'} {ts} {us} r mv) =
    let i = Interleaves-IsOrderly f s r in
    let count = Among-count f 0 mv i.count in
    elim (Among-Effect f 0 mv i.count) [
      | begins e logged content entries ↦ record {
        count = count;
        content =
            content
            ∙ ap (λ x. x ++ encoded f e) i.content
            ∙ sym (stdout-with_logged f e o.logged s)
            ∙ ap (λ l. stdout f (with_logged l s)) (sym logged);
        entries =
            subst (λ l. Permᴰ l (begun us)) (sym logged)
              (Permᴰ.trans (Permᴰ.cons refl i.entries) entries);
      }
      | goes_on logged content entries ↦ record {
        count = count;
        content = content ∙ i.content ∙ ap (λ l. stdout f (with_logged l s)) (sym logged);
        entries =
            subst (λ l. Permᴰ l (begun us)) (sym logged)
              (subst (λ l. Permᴰ o.logged l) (sym entries) i.entries);
      }
    ]

alone_or_idle : (n : ℕ) → n ≤ 1 → (n ≡ 1) ⊎ (n ≡ 0)
alone_or_idle n le = ground arith

-- However the requests overlap after a sequential run, stdout is, but for what the one goroutine
-- that holds the mutex, if one does, has left to write of its line, what a sequential run leaves that serves, one
-- after the other, the requests that got the mutex: whole lines, one for each boot event and each
-- earlier entry, and then exactly one for each of these requests. The texts of numbers have no
-- control characters.
pub Interleaves-whole :
    (f : Formats) (s : World) (o : Output) (ts : List Turn)
    → IsFormat f
    → Interleaves f s o ts
    → (whole o ts ≡ stdout f (with_logged o.logged s))
      × (lines (whole o ts)
          ≡ map (boot_json f) (reverse s.boot_log)
            ++ map (entry_json f) (reverse (o.logged ++ s.access_log)))
      × Permᴰ o.logged (begun ts)
      × ((total holds ts ≡ 1) ⊎ ((total holds ts ≡ 0) × (unwritten ts ≡ [])))
Interleaves-whole f s o ts is r =
    let i = Interleaves-IsOrderly f s r in
    (
      i.content,
      ap lines i.content ∙ stdout-lines f (with_logged o.logged s) is,
      i.entries,
      elim (alone_or_idle (total holds ts) (omega (arith, i.count, held-le o.locked))) [
        | inl one ↦ inl one
        | inr zero_holds ↦ inr (zero_holds, unwritten-idle ts zero_holds)
      ],
    )
