-- ===== src/Kernel/Block/Elevator.antt =====
-- The queue of a device as a list of requests, and where `add_request` puts a new one.
use linux.Base.{
  ℕ, zero, suc, ◌<◌, ◌≡◌, ◌≢◌, ◌⊎◌, inl, inr, refl, sym, ◌∙◌, ap, arith, Bool, true, false,
  Bool-cases, ◌==◌, if◌then◌else◌, update, List, [], ◌∷◌, length, All,
}
use mathlib.Core.Path.{subst}
use linux.Kernel.Block.{
  Request, Blocks, Devices, nr_request, in_order, fits, find_place, link_behind, clear_dirt,
  enqueue, add_request,
}

-- The `next` pointers lead from `p` through the list to NULL.
abbrev pub IsChain : (ℕ → Request) → ℕ → List ℕ → Type 0
IsChain request p [] = p ≡ 0
IsChain request p (x ∷ xs) = (p ≡ x) × (x ≢ 0) × IsChain request (request x).next xs

abbrev pub Apart : ℕ → List ℕ → Type 0
Apart p xs = All (λ x. x ≢ p) xs

abbrev pub Distinct : List ℕ → Type 0
Distinct [] = Unit
Distinct (x ∷ xs) = Apart x xs × Distinct xs

-- The list behind `h` with `req` put in at the first place where it fits, or at the end.
abbrev pub insert : (ℕ → Request) → (req h : ℕ) → List ℕ → List ℕ
insert request req h [] = req ∷ []
insert request req h (n ∷ ns) =
    let rest = insert request req n ns in
    if fits (request h) (request req) (request n) then req ∷ n ∷ ns else n ∷ rest

-- A chain is not touched by a change of requests outside of it.
IsChain-unchanged :
    (r r' : ℕ → Request) (p : ℕ) (xs : List ℕ)
    → All (λ x. (r' x).next ≡ (r x).next) xs
    → IsChain r p xs
    → IsChain r' p xs
IsChain-unchanged r r' p [] a c = c
IsChain-unchanged r r' p (x ∷ xs) (e, a) (i, nz, c) =
    (i, nz, IsChain-unchanged r r' (r' x).next xs a (rw e c))

next-link_behind :
    (r : ℕ → Request) (tmp req x : ℕ)
    → x ≢ tmp
    → x ≢ req
    → (link_behind tmp req r x).next ≡ (r x).next
unfolding link_behind
next-link_behind r tmp req x nt nr = ground arith

next_of_place :
    (r : ℕ → Request) (tmp req : ℕ)
    → tmp ≢ req
    → ((link_behind tmp req r tmp).next ≡ req) × ((link_behind tmp req r req).next ≡ (r tmp).next)
unfolding link_behind
next_of_place r tmp req ne = (ground arith, ground arith)

All-unchanged :
    (r : ℕ → Request) (tmp req : ℕ) (xs : List ℕ)
    → Apart tmp xs
    → Apart req xs
    → All (λ x. (link_behind tmp req r x).next ≡ (r x).next) xs
All-unchanged r tmp req [] a b = a
All-unchanged r tmp req (x ∷ xs) (n, a) (m, b) =
    (next-link_behind r tmp req x n m, All-unchanged r tmp req xs a b)

-- `req` directly behind `h`.
IsChain-behind :
    (r : ℕ → Request) (req h : ℕ) (xs : List ℕ)
    → h ≢ req
    → req ≢ 0
    → Apart h xs
    → Apart req xs
    → IsChain r (r h).next xs
    → IsChain (link_behind h req r) (link_behind h req r h).next (req ∷ xs)
IsChain-behind r req h xs ne nz ah aq c =
    let (e, f) = next_of_place r h req ne in
    (
      e,
      nz,
      rw f (
          IsChain-unchanged r (link_behind h req r) (r h).next xs (All-unchanged r h req xs ah aq)
            c),
    )

find_place-in :
    (fuel : ℕ) (r : ℕ → Request) (req h n : ℕ) (ns : List ℕ)
    → IsChain r (r h).next ns
    → n ≢ h
    → Apart n ns
    → find_place fuel r req h ≢ n
unfolding find_place
find_place-in zero r req h n ns c ne a e = ne (sym e)
find_place-in (suc fuel) r req h n [] c ne a e = ground arith
find_place-in (suc fuel) r req h n (m ∷ ns) (i, nz, c) ne (nm, a) e =
    ground (arith, find_place-in fuel r req m n ns c (λ z. nm (sym z)) a, i)

find_place-end :
    (fuel : ℕ) (r : ℕ → Request) (req h : ℕ) → (r h).next ≡ 0 → find_place (suc fuel) r req h ≡ h
unfolding find_place
find_place-end fuel r req h e = ground arith

find_place-here :
    (fuel : ℕ) (r : ℕ → Request) (req h n : ℕ)
    → (r h).next ≡ n
    → fits (r h) (r req) (r n) ≡ true
    → find_place (suc fuel) r req h ≡ h
unfolding find_place
find_place-here fuel r req h n e f = rw e (rw f (ground arith))

find_place-on :
    (fuel : ℕ) (r : ℕ → Request) (req h n : ℕ)
    → (r h).next ≡ n
    → n ≢ 0
    → fits (r h) (r req) (r n) ≡ false
    → find_place (suc fuel) r req h ≡ find_place fuel r req n
unfolding find_place
find_place-on fuel r req h n e nz f = rw e (rw f (ground arith))

-- The queue behind `h`, once `req` is linked behind `t`.
abbrev ChainBehind : (ℕ → Request) → (req h t : ℕ) → List ℕ → Type 0
ChainBehind r req h t xs = IsChain (link_behind t req r) (link_behind t req r h).next xs

insert-IsChain :
    (fuel : ℕ) (r : ℕ → Request) (req h : ℕ) (xs : List ℕ)
    → length xs < fuel
    → h ≢ req
    → req ≢ 0
    → Apart h xs
    → Apart req xs
    → Distinct xs
    → IsChain r (r h).next xs
    → let r' = link_behind (find_place fuel r req h) req r in
      IsChain r' (r' h).next (insert r req h xs)
insert-IsChain zero r req h xs l ne nz ah aq d c = absurd (omega arith)
insert-IsChain (suc fuel) r req h [] l ne nz ah aq d c =
    rw (find_place-end fuel r req h c) (IsChain-behind r req h [] ne nz ah aq c)
insert-IsChain (suc fuel) r req h (n ∷ ns) l ne nz (nh, ah) (nq, aq) (dn, d) (i, n0, c) =
    elim (Bool-cases (fits (r h) (r req) (r n))) [
      | inl f ↦ rw f (
          subst (λ t. ChainBehind r req h t (req ∷ n ∷ ns))
            (sym (find_place-here fuel r req h n i f))
            (IsChain-behind r req h (n ∷ ns) ne nz (nh, ah) (nq, aq) (i, n0, c)))
      | inr f ↦
          let t = find_place fuel r req n in
          let t_ne_h : t ≢ h = find_place-in fuel r req n h ns c (λ e. nh (sym e)) ah in
          rw f (
            subst (λ t. ChainBehind r req h t (n ∷ insert r req n ns))
              (sym (find_place-on fuel r req h n i n0 f))
              (
                next-link_behind r t req h (λ e. t_ne_h (sym e)) ne ∙ i,
                n0,
                insert-IsChain fuel r req n ns (omega arith) nq nz dn aq d c,
              ))
    ]

-- Each request of the list is in order with the one before it, `h` before the first.
abbrev pub Ascending : (ℕ → Request) → ℕ → List ℕ → Type 0
Ascending r h [] = Unit
Ascending r h (n ∷ ns) = (in_order (r h) (r n) ≡ true) × Ascending r n ns

-- `req` and the other differ in command, device or sector.
abbrev pub Differs : (ℕ → Request) → ℕ → ℕ → Type 0
Differs r req x = (in_order (r req) (r x) ≡ true) ⊎ (in_order (r x) (r req) ≡ true)

fits-ascending : (a q b : Request) → in_order a q ≡ true → fits a q b ≡ true → in_order q b ≡ true
fits-ascending a q b h f = ground arith

not_fits : (a q b : Request) → in_order a q ≡ true → fits a q b ≡ false → in_order q b ≡ false
not_fits a q b h f = ground arith

true_or : {b : Bool} {A : Type 0} → b ≡ false → (b ≡ true) ⊎ A → A
true_or e (inl t) = cc
true_or e (inr a) = a

insert-Ascending :
    (r : ℕ → Request) (req h : ℕ) (xs : List ℕ)
    → in_order (r h) (r req) ≡ true
    → All (Differs r req) xs
    → Ascending r h xs
    → Ascending r h (insert r req h xs)
insert-Ascending r req h [] o d a = (o, a)
insert-Ascending r req h (n ∷ ns) o (dn, d) (hn, a) = elim (Bool-cases (fits (r h) (r req) (r n))) [
  | inl f ↦ rw f (o, (fits-ascending (r h) (r req) (r n) o f, a))
  | inr f ↦
      rw f (hn, insert-Ascending r req n ns (true_or (not_fits (r h) (r req) (r n) o f) dn) d a)
]

-- The requests when `add_request` has cleared `next` of the new one.
abbrev pub prepared : ℕ → Blocks → ℕ → Request
prepared req b = update b.request req (record (b.request req) { next = 0 })

-- The queue of a device: its first request, on which the driver works, and those that wait.
pub record IsQueue (b : Blocks) (major x : ℕ) (xs : List ℕ) : Type 0 where
  pub head : b.current_request major ≡ x
  pub chain : IsChain b.request x (x ∷ xs)

-- A new request that is not in the queue.
pub record IsNew (req x : ℕ) (xs : List ℕ) : Type 0 where
  pub not_null : req ≢ 0
  pub not_head : x ≢ req
  pub not_in : Apart req xs
  pub distinct : Distinct (x ∷ xs)
  pub size : length xs < nr_request

clear_dirt-requests :
    (req : ℕ) (b : Blocks)
    → ((clear_dirt req b).current_request ≡ b.current_request)
      × ((clear_dirt req b).request ≡ prepared req b)
unfolding clear_dirt
clear_dirt-requests req b = elim (Bool-cases ((b.request req).bh == 0)) [
  | inl e ↦ rw e (refl, refl)
  | inr e ↦ rw e (refl, refl)
]

enqueue-links :
    (d : Devices) (major req x : ℕ) (r : ℕ → Request) (b : Blocks)
    → b.current_request major ≡ x
    → x ≢ 0
    → b.request ≡ r
    → let b' = enqueue d major req b in
      (b'.current_request major ≡ x)
      × (b'.request ≡ link_behind (find_place nr_request r req x) req r)
unfolding enqueue
enqueue-links d major req x r b h nz e =
    let some_head : (x == 0) ≡ false = ground arith in rw (h, some_head, e) (h, refl)

add_request-links :
    (d : Devices) (major req x : ℕ) (b : Blocks)
    → b.current_request major ≡ x
    → x ≢ 0
    → let b' = add_request d major req b in
      let r = prepared req b in
      (b'.current_request major ≡ x)
      × (b'.request ≡ link_behind (find_place nr_request r req x) req r)
unfolding add_request
add_request-links d major req x b h nz =
    let (c, e) = clear_dirt-requests req b in
    enqueue-links d major req x (prepared req b) (clear_dirt req b) (ap (λ f. f major) c ∙ h) nz e

All-prepared :
    (req : ℕ) (xs : List ℕ) (b : Blocks)
    → Apart req xs
    → All (λ x. (prepared req b x).next ≡ (b.request x).next) xs
All-prepared req [] b a = a
All-prepared req (x ∷ xs) b (n, a) = (ground arith, All-prepared req xs b a)

prepared-IsChain :
    (req p : ℕ) (xs : List ℕ) (b : Blocks)
    → Apart req xs
    → IsChain b.request p xs
    → IsChain (prepared req b) p xs
prepared-IsChain req p xs b a c =
    IsChain-unchanged b.request (prepared req b) p xs (All-prepared req xs b a) c

-- A request that is added to a queue that is not empty, has fewer than 33 requests, all different,
-- and does not have the new one: the first request stays the first, and behind
-- it the queue has the same requests in the same order with the new one among them, at the first
-- place where the elevator's condition holds, or at the end.
pub add_request-IsQueue :
    (d : Devices) (major req x : ℕ) (xs : List ℕ) (b : Blocks)
    → IsQueue b major x xs
    → IsNew req x xs
    → IsQueue (add_request d major req b) major x (insert (prepared req b) req x xs)
add_request-IsQueue d major req x xs b q n =
    let (_, nz, chain) = q.chain in
    let (head', links) = add_request-links d major req x b q.head nz in
    let r = prepared req b in
    let r' = link_behind (find_place nr_request r req x) req r in
    let ys = insert r req x xs in
    let next_x : (r x).next ≡ (b.request x).next = ground (arith, n.not_head) in
    let c : IsChain r (r x).next xs =
      rw next_x (prepared-IsChain req (b.request x).next xs b n.not_in chain) in
    let c' =
      insert-IsChain nr_request r req x xs n.size n.not_head n.not_null n.distinct.0 n.not_in
        n.distinct.1 c in
    record {
      head = head';
      chain = (refl, nz, subst (λ (f : ℕ → Request). IsChain f (f x).next ys) (sym links) c');
    }

-- In a queue in ascending order (reads before writes, then by device and sector), a new request that
-- comes after the first one, and that differs from the others in command, device or sector, leaves
-- the queue in ascending order.
pub add_request-Ascending :
    (d : Devices) (major req x : ℕ) (xs : List ℕ) (b : Blocks)
    → IsQueue b major x xs
    → IsNew req x xs
    → in_order (prepared req b x) (prepared req b req) ≡ true
    → All (Differs (prepared req b) req) xs
    → Ascending (prepared req b) x xs
    → (ys : List ℕ) × IsQueue (add_request d major req b) major x ys
      × Ascending (prepared req b) x ys
add_request-Ascending d major req x xs b q n o df a = (
  insert (prepared req b) req x xs,
  add_request-IsQueue d major req x xs b q n,
  insert-Ascending (prepared req b) req x xs o df a,
)
