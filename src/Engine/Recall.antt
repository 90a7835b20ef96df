-- ===== src/Engine/Recall.antt =====
-- What a session remembers (promote, crates/chat/src/engine/repository.rs).
use fineract_ai_backend.Prelude.{
  ℕ, ◌+◌, ◌≡◌, refl, ◌∙◌, Bool, true, false, List, [], ◌∷◌, ◌++◌, arith, if◌then◌else◌,
  update_where,
}
use fineract_ai_backend.Store.Sessions.{MemoryRow, Session}
use fineract_ai_backend.Engine.Memory.{
  MemoryFact, Source, is_replaced, supersede, link, row_of, promote_one, promote,
}

-- The memory rows carry the sequences from the one after `first` to `last`, in order.
abbrev pub Sequenced : ℕ → List MemoryRow → ℕ → Type 0
Sequenced first [] last = first ≡ last
Sequenced first (m ∷ ms) last = (m.session_seq ≡ first + 1) × Sequenced (first + 1) ms last

Sequenced-append :
    (first : ℕ) (ms : List MemoryRow) (last : ℕ) (m : MemoryRow)
    → Sequenced first ms last
    → m.session_seq ≡ last + 1
    → Sequenced first (ms ++ m ∷ []) (last + 1)
Sequenced-append first [] last m h s = ground arith
Sequenced-append first (x ∷ ms) last m h s = (h.0, Sequenced-append (first + 1) ms last m h.1 s)

-- An update that keeps the sequence of each row keeps the numbering.
Sequenced-update_where :
    (test : MemoryRow → Bool) (set : MemoryRow → MemoryRow)
    → ((b : Bool) (m : MemoryRow) → (if b then set m else m).session_seq ≡ m.session_seq)
    → (first : ℕ) (ms : List MemoryRow) (last : ℕ) → Sequenced first ms last
    → Sequenced first (update_where test set ms) last
Sequenced-update_where test set same first [] last h = h
Sequenced-update_where test set same first (m ∷ ms) last h =
    (same (test m) m ∙ h.0, Sequenced-update_where test set same (first + 1) ms last h.1)

abbrev pub IsSequenced : Session → Type 0
IsSequenced s = Sequenced 0 s.memory s.memory_seq_last

supersede-seq :
    (now : ℕ) (b : Bool) (m : MemoryRow)
    → (if b then supersede now m else m).session_seq ≡ m.session_seq
unfolding supersede
supersede-seq now true m = refl
supersede-seq now false m = refl

link-seq :
    (id : ℕ) (b : Bool) (m : MemoryRow) → (if b then link id m else m).session_seq ≡ m.session_seq
unfolding link
link-seq id true m = refl
link-seq id false m = refl

promote_one-IsSequenced :
    (now id : ℕ) (source : Source) (fact : MemoryFact) (s : Session)
    → IsSequenced s
    → IsSequenced (promote_one now id source fact s)
unfolding promote_one row_of
promote_one-IsSequenced now id source fact s h =
    Sequenced-update_where _ (link id) (link-seq id) 0 _ (s.memory_seq_last + 1) (
      Sequenced-append 0 _ s.memory_seq_last _
        (Sequenced-update_where (is_replaced fact) (supersede now) (supersede-seq now) 0 s.memory
          s.memory_seq_last h)
        refl)

-- Where the rows of a session's memory carry the sequences 1, 2, …, memory_seq_last in the order in
-- which they were written, they do so however many facts a settlement promotes.
pub promote-IsSequenced :
    (now : ℕ) (fresh : ℕ → ℕ) (source : Source) (facts : List MemoryFact) (s : Session)
    → IsSequenced s
    → IsSequenced (promote now fresh source facts s)
unfolding promote
promote-IsSequenced now fresh source [] s h = h
promote-IsSequenced now fresh source (fact ∷ facts) s h =
    promote-IsSequenced now (λ k. fresh (k + 1)) source facts _
      (promote_one-IsSequenced now (fresh 0) source fact s h)
