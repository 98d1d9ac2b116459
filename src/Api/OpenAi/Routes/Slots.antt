-- ===== src/Api/OpenAi/Routes/Slots.antt =====
-- internal/router/apihandler.go and pkg/gpu/pool.go: the free slots that /health reports.
use auxot.Common.{suc, ◌≡◌, refl, sym, ap, ◌∙◌, [], ◌∷◌, map, arith, length, Text}
use auxot.Common.Assoc.{Assoc, keys}
use auxot.Common.Int.{
  ℤ, pos, wrap_int, ◌+ℤ◌, ◌-ℤ◌, int_laws, parts_of_eq, wrap_int-+ℤ_left, wrap_int--ℤ,
  wrap_int-of_IsInt,
}
use auxot.Gpu.{Pool, Worker, snapshot, total_capacity, snapshot_of}
use auxot.Gpu.Slots.{free_slots, total_capacity-free_slots}
use auxot.Api.OpenAi.Routes.{sum_slots, sum_jobs, handle_health}

all_slots : Assoc Text Worker → ℤ
all_slots [] = pos 0
all_slots ((id, w) ∷ ws) = w.max_slots +ℤ all_slots ws

all_jobs : Assoc Text Worker → ℤ
all_jobs [] = pos 0
all_jobs ((id, w) ∷ ws) = pos (length w.active_jobs) +ℤ all_jobs ws

length-keys_lem {ℓ κ} : {K : Type ℓ} {V : Type κ} (m : Assoc K V) → length (keys m) ≡ length m
length-keys_lem [] = refl
length-keys_lem (e ∷ m) = ap suc (length-keys_lem m)

free_slots_split : (ws : Assoc Text Worker) → all_slots ws -ℤ all_jobs ws ≡ free_slots ws
unfolding all_slots all_jobs free_slots
free_slots_split [] = omega int_laws
free_slots_split ((id, w) ∷ ws) = omega (int_laws, parts_of_eq (free_slots_split ws))

sum_slots_lem :
    (ws : Assoc Text Worker) (total : ℤ)
    → sum_slots (map (λ e. snapshot_of e.1) ws) (wrap_int total) ≡ wrap_int (total +ℤ all_slots ws)
unfolding sum_slots all_slots snapshot_of
sum_slots_lem [] total = ap wrap_int (omega int_laws)
sum_slots_lem ((id, w) ∷ ws) total =
    ap (sum_slots (map (λ e. snapshot_of e.1) ws)) (wrap_int-+ℤ_left total w.max_slots)
    ∙ sum_slots_lem ws (total +ℤ w.max_slots)
    ∙ ap wrap_int (omega int_laws)

sum_jobs_lem :
    (ws : Assoc Text Worker) (total : ℤ)
    → sum_jobs (map (λ e. snapshot_of e.1) ws) (wrap_int total) ≡ wrap_int (total +ℤ all_jobs ws)
unfolding sum_jobs all_jobs snapshot_of
sum_jobs_lem [] total = ap wrap_int (omega int_laws)
sum_jobs_lem ((id, w) ∷ ws) total =
    let jobs : ℤ = pos (length w.active_jobs) in
    ap (λ n. sum_jobs (map (λ e. snapshot_of e.1) ws) (wrap_int (wrap_int total +ℤ pos n)))
      (length-keys_lem w.active_jobs)
    ∙ ap (sum_jobs (map (λ e. snapshot_of e.1) ws)) (wrap_int-+ℤ_left total jobs)
    ∙ sum_jobs_lem ws (total +ℤ jobs)
    ∙ ap wrap_int (omega int_laws)

-- The free slots that /health reports are those that the pool's TotalCapacity gives, wrap-around
-- included, although the one takes the difference of two sums and the other sums differences.
pub handle_health-total_capacity : (p : Pool) → (handle_health p).available ≡ total_capacity p
unfolding handle_health snapshot
handle_health-total_capacity p =
    let zero_wrapped : wrap_int (pos 0) ≡ pos 0 = wrap_int-of_IsInt (pos 0) (omega arith) in
    let slots : sum_slots (map (λ e. snapshot_of e.1) p.workers) (pos 0)
        ≡ wrap_int (pos 0 +ℤ all_slots p.workers) =
      ap (sum_slots (map (λ e. snapshot_of e.1) p.workers)) (sym zero_wrapped)
      ∙ sum_slots_lem p.workers (pos 0) in
    let jobs : sum_jobs (map (λ e. snapshot_of e.1) p.workers) (pos 0)
        ≡ wrap_int (pos 0 +ℤ all_jobs p.workers) =
      ap (sum_jobs (map (λ e. snapshot_of e.1) p.workers)) (sym zero_wrapped)
      ∙ sum_jobs_lem p.workers (pos 0) in
    ap (λ z. wrap_int (z -ℤ sum_jobs (map (λ e. snapshot_of e.1) p.workers) (pos 0))) slots
    ∙ ap (λ z. wrap_int (wrap_int (pos 0 +ℤ all_slots p.workers) -ℤ z)) jobs
    ∙ wrap_int--ℤ (pos 0 +ℤ all_slots p.workers) (pos 0 +ℤ all_jobs p.workers)
    ∙ ap wrap_int (omega (int_laws, parts_of_eq (free_slots_split p.workers)))
    ∙ sym (total_capacity-free_slots p)
