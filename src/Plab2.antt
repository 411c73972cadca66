-- ===== src/Plab2.antt =====
-- plab_1-4_solutions/startcodeplab2: the second lab, a .csv file (ex1), a database with a logger
-- process (milestone2) and a message through a pipe (ex2).
pub mod Exercise1
pub mod Gateway
pub mod ReverseCase
mod Tests
