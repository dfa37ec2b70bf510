-- ===== src/Memory/Frames/Calls.antt =====
-- Sequences of calls of the allocator: a frame that was handed out is not handed out again.
use husky_os.Base.{
  ℕ, ◌*◌, ◌/◌, ◌^◌, ◌<◌, ◌≡◌, ◌≢◌, refl, true, false, arith, leb, inl, inr, Bool-cases, ◌⊎◌, ◌∙◌,
}
use husky_os.Memory.Bitmap.{get}
use husky_os.Memory.Frames.{
  Frames, lock_page, reserve_page, free_page, unreserve_page, lock_pages, reserve_pages,
  request_page, request_pages,
}
use husky_os.Memory.Frames.Mark.{
  IsValid, IsMarker, accounted, lock_page-IsMarker, reserve_page-IsMarker, free_page-IsMarker,
  unreserve_page-IsMarker,
}
use husky_os.Memory.Frames.Each.{each_page-IsValid, each_page_monotone, accounted-each_page}
use husky_os.Memory.Frames.Request.{
  IsLowest, IsLowest-or_full, request_page_first_fit, request_page_full, move_hint-IsHinted,
  move_hint-IsValid, accounted-move_hint,
}
use husky_os.Memory.Frames.Run.{request_pages_lem}

-- One call of the allocator that does not give frame `f` back.
pub data Call (f : ℕ) (s : Frames) : Frames → Type 0 where
  lock : (a : ℕ) → Call f s (lock_page a s)
  reserve : (a : ℕ) → Call f s (reserve_page a s)
  lock_many : (a n : ℕ) → Call f s (lock_pages a n s)
  reserve_many : (a n : ℕ) → Call f s (reserve_pages a n s)
  free : (a : ℕ) → a / 4096 ≢ f → Call f s (free_page a s)
  unreserve : (a : ℕ) → a / 4096 ≢ f → Call f s (unreserve_page a s)
  request : Call f s (request_page s).1
  request_many : (n : ℕ) → n < 2 ^ 19 → Call f s (request_pages n s).1

pub data Calls (f : ℕ) (s : Frames) : Frames → Type 0 where
  here : Calls f s s
  next : {t u : Frames} → Calls f s t → Call f t u → Calls f s u

-- What every call keeps.
record Holds (f : ℕ) (s t : Frames) : Type 0 where
  valid : IsValid t
  accounts : accounted t ≡ accounted s
  taken : get s.page_bitmap f ≡ true → get t.page_bitmap f ≡ true

clear_other :
    {op : ℕ → Frames → Frames} (k : IsMarker op false) (a f : ℕ) (s : Frames)
    → IsValid s
    → a / 4096 ≢ f
    → Holds f s (op a s)
clear_other {op} k a f s v ne = record {
  valid = k.keeps a s v;
  accounts = k.accounts a s v;
  taken = λ e. elim (Bool-cases (leb (a / 4096) (s.page_bitmap.size * 8))) [
    | inl q ↦ ground (arith, k.marks a s v (ground arith) f)
    | inr q ↦ ground (arith, k.beyond a s v (ground arith))
  ];
}

set_other :
    {op : ℕ → Frames → Frames} (k : IsMarker op true) (a f : ℕ) (s : Frames)
    → IsValid s
    → Holds f s (op a s)
set_other {op} k a f s v = record {
  valid = k.keeps a s v;
  accounts = k.accounts a s v;
  taken = λ e. elim (Bool-cases (leb (a / 4096) (s.page_bitmap.size * 8))) [
    | inl q ↦ ground (arith, k.marks a s v (ground arith) f)
    | inr q ↦ ground (arith, k.beyond a s v (ground arith))
  ];
}

request-Holds : (f : ℕ) (s : Frames) → IsValid s → Holds f s (request_page s).1
request-Holds f s v = elim (IsLowest-or_full s) [
  | inl (g, low) ↦
      let (_, marks, w, acc) = request_page_first_fit s g v low in
      record { valid = w; accounts = acc; taken = λ e. ground (arith, marks f) }
  | inr full ↦
      rw (request_page_full s v full) (record { valid = v; accounts = refl; taken = λ e. e })
]

request_pages-Holds :
    (f n : ℕ) (s : Frames) → IsValid s → n < 2 ^ 19 → Holds f s (request_pages n s).1
request_pages-Holds f n s v small = elim (request_pages_lem s n v small) [
  | inl t ↦ record {
    valid = t.run.valid;
    accounts = t.run.accounts;
    taken = λ e. ground (arith, t.run.marked f);
  }
  | inr e ↦ rw e (record {
    valid = move_hint-IsValid s v;
    accounts = accounted-move_hint s;
    taken = λ q. rw (move_hint-IsHinted s).bitmap q;
  })
]

Call-Holds : {f : ℕ} {s t : Frames} → Call f s t → IsValid s → Holds f s t
unfolding lock_pages reserve_pages
Call-Holds {f} {s} (lock a) v = set_other lock_page-IsMarker a f s v
Call-Holds {f} {s} (reserve a) v = set_other reserve_page-IsMarker a f s v
Call-Holds {f} {s} (lock_many a n) v = record {
  valid = each_page-IsValid lock_page-IsMarker a n 0 s v;
  accounts = accounted-each_page lock_page-IsMarker a n 0 s v;
  taken = each_page_monotone lock_page-IsMarker a n 0 s f v;
}
Call-Holds {f} {s} (reserve_many a n) v = record {
  valid = each_page-IsValid reserve_page-IsMarker a n 0 s v;
  accounts = accounted-each_page reserve_page-IsMarker a n 0 s v;
  taken = each_page_monotone reserve_page-IsMarker a n 0 s f v;
}
Call-Holds {f} {s} (free a ne) v = clear_other free_page-IsMarker a f s v ne
Call-Holds {f} {s} (unreserve a ne) v = clear_other unreserve_page-IsMarker a f s v ne
Call-Holds {f} {s} request v = request-Holds f s v
Call-Holds {f} {s} (request_many n small) v = request_pages-Holds f n s v small

Calls-Holds : {f : ℕ} {s t : Frames} → Calls f s t → IsValid s → Holds f s t
Calls-Holds here v = record { valid = v; accounts = refl; taken = λ e. e }
Calls-Holds (next r c) v =
    let h = Calls-Holds r v in
    let k = Call-Holds c h.valid in
    record { valid = k.valid; accounts = k.accounts ∙ h.accounts; taken = λ e. k.taken (h.taken e) }

-- However the allocator is called, the invariant holds and free, used and reserved memory add
-- up to the same number of bytes.
pub Calls_accounted :
    (f : ℕ) (s t : Frames) → Calls f s t → IsValid s → IsValid t × (accounted t ≡ accounted s)
Calls_accounted f s t r v = let h = Calls-Holds r v in (h.valid, h.accounts)

-- A frame that `RequestPage` has handed out stays marked through every sequence of calls that
-- does not give it back, and `RequestPage` does not hand it out again: it returns another
-- address, or `NULL` because no frame is left.
pub request_page_exclusive :
    (f : ℕ) (s t : Frames)
    → IsValid s
    → IsLowest s f
    → Calls f (request_page s).1 t
    → (get t.page_bitmap f ≡ true) × (((request_page t).0 ≢ f * 4096) ⊎ (request_page t ≡ (0, t)))
request_page_exclusive f s t v low r =
    let (_, marks, w, _) = request_page_first_fit s f v low in
    let h = Calls-Holds r w in
    let taken = h.taken (ground (arith, marks f)) in
    (
      taken,
      elim (IsLowest-or_full t) [
        | inl (g, lg) ↦
            inl (λ e. ground (arith, (request_page_first_fit t g h.valid lg).0, lg.clear))
        | inr full ↦ inr (request_page_full t h.valid full)
      ],
    )
