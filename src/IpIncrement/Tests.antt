-- ===== src/IpIncrement/Tests.antt =====
-- Runs of the address increment, after the unit tests of
-- rita/src/rita_common/utils/ip_increment.rs, and instances of its theorems.
use althea_rs.Prelude.{suc, ◌≡◌, refl, [], ◌∷◌}
use althea_rs.Prelude.Outcome.{ok, err}
use althea_rs.IpIncrement.{
  Octets, exhausted, down, increment_loop, incrementv4, incrementv6, v4, v6, increment,
}
use althea_rs.IpIncrement.Value.{number, increment-value}

abbrev site : Octets
site =
    253
    ∷ (0 ∷ (0 ∷ (0 ∷ (0 ∷ (0 ∷ (0 ∷ (0 ∷ (0 ∷ (0 ∷ (0 ∷ (0 ∷ (0 ∷ (0 ∷ (7 ∷ (255 ∷ [])))))))))))))))

abbrev next_site : Octets
next_site =
    253
    ∷ (0 ∷ (0 ∷ (0 ∷ (0 ∷ (0 ∷ (0 ∷ (0 ∷ (0 ∷ (0 ∷ (0 ∷ (0 ∷ (0 ∷ (0 ∷ (8 ∷ (0 ∷ [])))))))))))))))

increment_basic_v4 :
    increment (v4 (0 ∷ (0 ∷ (0 ∷ (0 ∷ []))))) 16 ≡ ok (v4 (0 ∷ (0 ∷ (0 ∷ (1 ∷ [])))))
unfolding increment incrementv4 increment_loop down
increment_basic_v4 = refl

increment_overflow_v4 :
    increment (v4 (0 ∷ (0 ∷ (0 ∷ (255 ∷ []))))) 16 ≡ ok (v4 (0 ∷ (0 ∷ (1 ∷ (0 ∷ [])))))
unfolding increment incrementv4 increment_loop down
increment_overflow_v4 = refl

increment_out_of_bounds_v4 : increment (v4 (0 ∷ (0 ∷ (255 ∷ (255 ∷ []))))) 16 ≡ err exhausted
unfolding increment incrementv4 increment_loop down
increment_out_of_bounds_v4 = refl

increment_overflow_v6 : increment (v6 site) 64 ≡ ok (v6 next_site)
unfolding increment incrementv6 increment_loop down
increment_overflow_v6 = refl

increment-value_example : number (v6 next_site) ≡ suc (number (v6 site))
increment-value_example = increment-value (v6 site) (v6 next_site) 64 refl increment_overflow_v6
