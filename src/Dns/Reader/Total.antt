-- ===== src/Dns/Reader/Total.antt =====
-- `parse` comes to an answer on every packet.
use air_show.Prelude.{ℕ, zero, suc, ◌+◌, ◌≢◌, refl, Bool, true, false, Bytes, length, leb, arith}
use air_show.Dns.Wire.{be16}
use air_show.Dns.Name.{Read, ok, malformed, out_of_fuel, ◌>>=◌, guard, read_name}
use air_show.Dns.Name.Bounds.{read_name-total}
use air_show.Dns.Message.{Record}
use air_show.Dns.Reader.{read_rdata, read_record, read_question, read_section, parse}

-- A chain of reads has an answer if each of its parts has.
>>=-IsAnswer {ℓ κ} :
    {A : Type ℓ} {B : Type κ} (m : Read A) (f : A → Read B)
    → m ≢ out_of_fuel
    → ((a : A) → f a ≢ out_of_fuel)
    → (m >>= f) ≢ out_of_fuel
>>=-IsAnswer (ok a) f h k = k a
>>=-IsAnswer malformed f h k = λ e. cc
>>=-IsAnswer out_of_fuel f h k = absurd (h refl)

guard-IsAnswer : (b : Bool) → guard b ≢ out_of_fuel
guard-IsAnswer true = λ e. cc
guard-IsAnswer false = λ e. cc

read_rdata-total :
    (bytes : Bytes) (p rdlen : ℕ) (r : Record) → read_rdata bytes p rdlen r ≢ out_of_fuel
unfolding read_rdata
read_rdata-total bytes p rdlen r =
    ground (arith, read_name-total bytes p, read_name-total bytes (p + 6))

read_section-total {ℓ} :
    {A : Type ℓ} (item : Bytes → ℕ → Read (A × ℕ)) (bytes : Bytes)
    → ((p : ℕ) → item bytes p ≢ out_of_fuel)
    → (count pos : ℕ) → read_section item bytes count pos ≢ out_of_fuel
unfolding read_section
read_section-total item bytes h zero pos = λ e. cc
read_section-total item bytes h (suc count) pos = >>=-IsAnswer (item bytes pos) _ (h pos) (λ a.
    >>=-IsAnswer (read_section item bytes count a.1) _ (read_section-total item bytes h count a.1)
      (λ b e. cc))

read_record-total : (bytes : Bytes) (pos : ℕ) → read_record bytes pos ≢ out_of_fuel
unfolding read_record
read_record-total bytes pos = >>=-IsAnswer (read_name bytes pos) _ (read_name-total bytes pos) (λ n.
    >>=-IsAnswer (guard (leb (n.1 + 10) (length bytes))) _ (guard-IsAnswer _) (λ u.
      >>=-IsAnswer (guard (leb (n.1 + 10 + be16 bytes (n.1 + 8)) (length bytes))) _
        (guard-IsAnswer _)
        (λ v. >>=-IsAnswer (read_rdata _ _ _ _) _ (read_rdata-total _ _ _ _) (λ r e. cc))))

read_question-total : (bytes : Bytes) (pos : ℕ) → read_question bytes pos ≢ out_of_fuel
unfolding read_question
read_question-total bytes pos =
    >>=-IsAnswer (read_name bytes pos) _ (read_name-total bytes pos)
      (λ n. >>=-IsAnswer (guard (leb (n.1 + 4) (length bytes))) _ (guard-IsAnswer _) (λ u e. cc))

-- Whatever bytes arrive, `parse` returns a message or "malformed": the fuel of the name reader is
-- never used up.
pub parse-total : (bytes : Bytes) → parse bytes ≢ out_of_fuel
unfolding parse
parse-total bytes = >>=-IsAnswer (guard (leb 12 (length bytes))) _ (guard-IsAnswer _) (λ u.
    >>=-IsAnswer (read_section read_question bytes (be16 bytes 4) 12) _
      (read_section-total read_question bytes (read_question-total bytes) _ _)
      (λ q.
        >>=-IsAnswer (read_section read_record bytes (be16 bytes 6) q.1) _
          (read_section-total read_record bytes (read_record-total bytes) _ _)
          (λ a.
            >>=-IsAnswer (read_section read_record bytes (be16 bytes 8) a.1) _
              (read_section-total read_record bytes (read_record-total bytes) _ _)
              (λ n.
                >>=-IsAnswer (read_section read_record bytes (be16 bytes 10) n.1) _
                  (read_section-total read_record bytes (read_record-total bytes) _ _)
                  (λ x e. cc)))))
